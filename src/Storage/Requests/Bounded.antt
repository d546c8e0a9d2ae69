-- ===== src/Storage/Requests/Bounded.antt =====
-- How many requests of a client a window admits.
-- Code: packages/storage/src/operations.ts (`consumeRequest`).
use alpha_proof.Base.{
  ℕ, ◌+◌, ◌≡◌, ◌≢◌, refl, sym, subst, ◌∙◌, inl, inr, Bool, true, false, not, ◌||◌, Option, none,
  some, List, [], ◌∷◌, find, find-kept, find-update_same, find-update_other, all, total_by, ◌==◌,
  leb, ltb, Bool-cases, arith,
}
use alpha_proof.Accounting.State.{Ident, Timestamp}
use alpha_proof.Storage.Queue.{least}
use alpha_proof.Storage.Requests.{
  RequestWindow, RequestPolicy, RequestCall, client_is, is_over, count_request, first_request,
  upsert, consume_request, one_if, admitted,
}

-- The calls of a client, and whether those before a time are all of them.
abbrev pub calls_of : Ident → List RequestCall → ℕ
calls_of client calls = total_by (λ call. one_if (call.client == client)) calls

abbrev pub within : Ident → Timestamp → RequestCall → Bool
within client limit call = not (call.client == client) || ltb call.at_time limit

own_window :
    (policy : RequestPolicy) (client : Ident) (now : Timestamp) (rows : List RequestWindow)
    (row : RequestWindow)
    → find (client_is client) rows ≡ some row
    → find (client_is client) (consume_request policy client now rows).1
      ≡ some (count_request policy now row)
unfolding consume_request
own_window policy client now rows row h =
    rw h (
      find-update_same (λ r. r.client_hash) (count_request policy now) (λ x. refl) client rows row
        h)

other_upsert :
    (policy : RequestPolicy) (client other : Ident) (now : Timestamp) (rows : List RequestWindow)
    (row : RequestWindow) (o : Option RequestWindow)
    → other ≢ client
    → find (client_is client) rows ≡ some row
    → find (client_is client) (upsert policy other now rows o) ≡ some row
other_upsert policy client other now rows row none differ h =
    find-kept (client_is client) rows (first_request other now) row h
other_upsert policy client other now rows row (some prior) differ h =
    find-update_other (λ r. r.client_hash) (count_request policy now) (λ x. refl) client other rows
      differ
    ∙ h

other_window :
    (policy : RequestPolicy) (client other : Ident) (now : Timestamp) (rows : List RequestWindow)
    (row : RequestWindow)
    → other ≢ client
    → find (client_is client) rows ≡ some row
    → find (client_is client) (consume_request policy other now rows).1 ≡ some row
unfolding consume_request
other_window policy client other now rows row differ h =
    other_upsert policy client other now rows row (find (client_is other) rows) differ h

-- A call within the window counts one, and is admitted below the limit.
own_answer :
    (policy : RequestPolicy) (client : Ident) (now : Timestamp) (rows : List RequestWindow)
    (row : RequestWindow)
    → find (client_is client) rows ≡ some row
    → is_over policy now row ≡ false
    → (consume_request policy client now rows).0
      ≡ leb (row.request_count + 1) policy.requests_per_window
unfolding consume_request
own_answer policy client now rows row h w = rw (h, w) refl

own_count :
    (policy : RequestPolicy) (now : Timestamp) (row : RequestWindow)
    → is_over policy now row ≡ false
    → ((count_request policy now row).request_count ≡ row.request_count + 1)
      × ((count_request policy now row).window_start ≡ row.window_start)
own_count policy now row w = rw w (refl, refl)

step_least :
    (k c limit others : ℕ) (b : Bool)
    → b ≡ leb (k + 1) limit
    → others + least (k + 1) limit ≡ least (k + 1 + c) limit
    → one_if b + others + least k limit ≡ least (k + (1 + c)) limit
step_least k c limit others b answer rest = ground (arith, answer, rest)

skip_least :
    (k c limit others : ℕ)
    → others + least k limit ≡ least (k + c) limit
    → 0 + others + least k limit ≡ least (k + (0 + c)) limit
skip_least k c limit others rest = ground (arith, rest)

-- Calls by the end of a client's window, among any calls of others: as many of the client's are
-- admitted as the limit leaves room for beside those that the window has counted.
pub admitted-least :
    (policy : RequestPolicy) (client : Ident) (calls : List RequestCall) (rows : List RequestWindow)
    (row : RequestWindow)
    → find (client_is client) rows ≡ some row
    → all (within client (row.window_start + policy.request_window_seconds)) calls ≡ true
    → admitted policy client calls rows + least row.request_count policy.requests_per_window
      ≡ least (row.request_count + calls_of client calls) policy.requests_per_window
unfolding admitted
admitted-least policy client [] rows row h w = ground arith
admitted-least policy client (call ∷ calls) rows row h w =
    elim (Bool-cases (call.client == client)) [
      | inl same ↦
          let e : call.client ≡ client = ground (arith, same) in
          let open_window : is_over policy call.at_time row ≡ false = ground (arith, same, w) in
          let found = subst (λ c. find (client_is c) rows ≡ some row) (sym e) h in
          let (counts, starts) = own_count policy call.at_time row open_window in
          let after =
            subst
              (λ c.
                find (client_is c) (consume_request policy call.client call.at_time rows).1
                ≡ some (count_request policy call.at_time row))
              e (own_window policy call.client call.at_time rows row found) in
          let later : all
                (within client (
                  (count_request policy call.at_time row).window_start
                  + policy.request_window_seconds))
                calls
              ≡ true =
            rw starts (ground (arith, w)) in
          let rest =
            admitted-least policy client calls
              (consume_request policy call.client call.at_time rows).1
              (count_request policy call.at_time row) after later in
          let answer = own_answer policy call.client call.at_time rows row found open_window in
          rw same (
            step_least row.request_count (calls_of client calls) policy.requests_per_window _ _
              answer (rw counts at rest))
      | inr differ ↦
          let after =
            other_window policy client call.client call.at_time rows row (ground (arith, differ))
              h in
          let rest =
            admitted-least policy client calls
              (consume_request policy call.client call.at_time rows).1 row after
              (ground (arith, w)) in
          rw differ
            (skip_least row.request_count (calls_of client calls) policy.requests_per_window _ rest)
    ]
