-- ===== src/Storage/Requests.antt =====
-- The windows that limit the requests of a client.
-- Code: packages/storage/src/operations.ts (`consumeRequest`).
pub mod Bounded
use alpha_proof.Base.{
  ℕ, ◌+◌, Bool, not, ◌&&◌, Option, none, some, List, [], ◌∷◌, find, push, update_first, ◌==◌, leb,
  if◌then◌else◌,
}
use alpha_proof.Accounting.State.{Ident, Timestamp}

pub record RequestWindow : Type 0 where
  pub client_hash : Ident
  pub window_start : Timestamp
  pub request_count : ℕ
  pub rejected_count : ℕ

-- The two fields of the policy that the statement reads.
pub record RequestPolicy : Type 0 where
  pub request_window_seconds : ℕ
  pub requests_per_window : ℕ

abbrev pub client_is : Ident → RequestWindow → Bool
client_is client row = row.client_hash == client

-- `window_start <= clock_timestamp() - seconds`
abbrev pub is_over : RequestPolicy → Timestamp → RequestWindow → Bool
is_over policy now row = leb (row.window_start + policy.request_window_seconds) now

abbrev pub count_request : RequestPolicy → Timestamp → RequestWindow → RequestWindow
count_request policy now row = record {
  client_hash = row.client_hash;
  window_start = if is_over policy now row then now else row.window_start;
  request_count = if is_over policy now row then 1 else row.request_count + 1;
  rejected_count =
      row.rejected_count
      + (if not (is_over policy now row) && leb policy.requests_per_window row.request_count
          then 1
          else 0);
}

abbrev pub first_request : Ident → Timestamp → RequestWindow
first_request client now = record {
  client_hash = client;
  window_start = now;
  request_count = 1;
  rejected_count = 0;
}

-- The row that the statement writes and returns.
abbrev pub counted : RequestPolicy → Ident → Timestamp → Option RequestWindow → RequestWindow
counted policy client now none = first_request client now
counted policy client now (some row) = count_request policy now row

abbrev pub upsert :
    RequestPolicy
    → Ident
    → Timestamp
    → List RequestWindow
    → Option RequestWindow
    → List RequestWindow
upsert policy client now rows none = push rows (first_request client now)
upsert policy client now rows (some row) =
    update_first (client_is client) (count_request policy now) rows

unfoldable pub consume_request :
    RequestPolicy → Ident → Timestamp → List RequestWindow → Bool × List RequestWindow
consume_request policy client now rows =
    let prior = find (client_is client) rows in
    (
      leb (counted policy client now prior).request_count policy.requests_per_window,
      upsert policy client now rows prior,
    )

-- Calls one after another, and how many of a client's are admitted.
pub record RequestCall : Type 0 where
  pub client : Ident
  pub at_time : Timestamp

abbrev pub one_if : Bool → ℕ
one_if b = if b then 1 else 0

unfoldable pub admitted : RequestPolicy → Ident → List RequestCall → List RequestWindow → ℕ
admitted policy client [] rows = 0
admitted policy client (call ∷ calls) rows =
    let answer = consume_request policy call.client call.at_time rows in
    one_if (call.client == client && answer.0) + admitted policy client calls answer.1
