-- ===== src/Notifications.antt =====
-- nazman/utils/notification_store.py: the journal of notifications. The rows of its table stand in
-- the order of their ids. What sqlite answers to a call is an argument of the call.
pub mod Journals
pub mod Ring
mod Samples
use nazman.Prelude.{
  ℕ, suc, ◌+◌, ◌*◌, ℤ, pos, negsuc, String, Bool, true, false, not, ◌&&◌, Option, none, some, List,
  [], ◌∷◌, ◌++◌, select, any, update_where, ltb, leb, ◌==◌, if◌then◌else◌, length, last?,
}

pub data Level : Type 0 where
  info success warning error : Level

pub record Note : Type 0 where
  pub id : ℕ
  pub ts : ℕ
  pub level : Level
  pub title : Option String
  pub message : String
  pub source : Option String
  pub read : Bool

pub data Connection : Type 0 where
  closed opened unavailable : Connection

pub record Journal : Type 0 where
  pub connection : Connection
  pub size : ℤ
  pub retention_days : ℤ
  pub pruned_at : Option ℕ
  pub rows : List Note
  -- the id that AUTOINCREMENT gives next
  pub next_id : ℕ

-- What a call finds: the time, the settings, whether the database can be opened and whether its
-- first statement raises sqlite3.Error.
pub record Sqlite : Type 0 where
  pub now : ℕ
  pub configured_size : ℤ
  pub configured_days : ℤ
  pub opens : Bool
  pub fails : Bool

abbrev pub connect : Sqlite → Journal → Journal
connect env j = record j {
  connection = if env.opens then opened else unavailable;
  size = env.configured_size;
  retention_days = env.configured_days;
}

abbrev pub ensured : Connection → Sqlite → Journal → Journal
ensured closed env j = connect env j
ensured opened env j = j
ensured unavailable env j = j

abbrev pub ensure_conn : Sqlite → Journal → Journal
ensure_conn env j = ensured j.connection env j

abbrev pub close : Journal → Journal
close j = record j {
  connection = elim j.connection [ closed ↦ closed | opened ↦ closed | unavailable ↦ unavailable ];
}

abbrev pub is_open : Connection → Bool
is_open closed = false
is_open opened = true
is_open unavailable = false

-- the statements of a call run
abbrev pub runs : Sqlite → Journal → Bool
runs env j = is_open j.connection && not env.fails

-- `DELETE ... WHERE id <= new_id - size` leaves the row
abbrev pub stays : ℤ → ℕ → Note → Bool
stays (pos n) new_id r = ltb new_id (r.id + n)
stays (negsuc n) new_id r = ltb (new_id + suc n) r.id

-- The INSERT and the DELETE of one call are taken to fail or to go through together.
unfoldable pub insert_row :
    Sqlite → Level → Option String → String → Option String → Journal → Journal
insert_row env level title message source j =
    let row : Note = record {
      id = j.next_id;
      ts = env.now;
      level = level;
      title = title;
      message = message;
      source = source;
      read = false;
    } in
    record j {
      rows = select (stays j.size j.next_id) (j.rows ++ row ∷ []);
      next_id = suc j.next_id;
    }

unfoldable pub add :
    Sqlite → Level → Option String → String → Option String → Journal → Option ℕ × Journal
add env level title message source j =
    let j' = ensure_conn env j in
    if runs env j'
    then (some j'.next_id, insert_row env level title message source j')
    else (none, j')

abbrev pub with_rows : (List Note → List Note) → Sqlite → Journal → Journal
with_rows f env j =
    let j' = ensure_conn env j in if runs env j' then record j' { rows = f j'.rows } else j'

abbrev pub is_listed : Option (List ℕ) → Note → Bool
is_listed none r = true
is_listed (some ids) r = any (λ n. r.id == n) ids

-- An empty list of ids writes nothing, as no row is in it.
unfoldable pub mark_read : Option (List ℕ) → Sqlite → Journal → Journal
mark_read ids = with_rows (update_where (is_listed ids) (λ r. record r { read = true }))

unfoldable pub clear : Sqlite → Journal → Journal
clear = with_rows (λ _. [])

abbrev pub is_recent : ℤ → ℕ → Note → Bool
is_recent (pos d) now r = leb now (r.ts + d * 86400)
is_recent (negsuc d) now r = leb (now + suc d * 86400) r.ts

abbrev pub is_due : Option ℕ → ℕ → Bool
is_due none now = true
is_due (some pruned) now = leb (pruned + 86400) now

-- The cut is computed before the call connects, with the days the journal has then.
unfoldable pub prune : Sqlite → Journal → Journal
prune env j =
    if is_due j.pruned_at env.now
    then record (with_rows (select (is_recent j.retention_days env.now)) env j) {
      pruned_at = some env.now;
    }
    else j

unfoldable pub unread_count : Sqlite → Journal → ℕ × Journal
unread_count env j =
    let j' = ensure_conn env j in
    (if runs env j' then length (select (λ r. not r.read) j'.rows) else 0, j')

abbrev pub id_or_zero : Option Note → ℕ
id_or_zero none = 0
id_or_zero (some r) = r.id

unfoldable pub max_id : Sqlite → Journal → ℕ × Journal
max_id env j =
    let j' = ensure_conn env j in (if runs env j' then id_or_zero (last? j'.rows) else 0, j')
