-- ===== src/Notifications/Ring.antt =====
-- The journal keeps its bound through every sequence of calls, and its last row is the one added
-- last.
use nazman.Prelude.{
  ℕ, suc, ◌-◌, ◌≤◌, ℤ, pos, String, Bool, true, false, not, ◌&&◌, Option, none, some, List, [], ◌∷◌,
  ◌++◌, select, length, last?, ◌≡◌, refl, ap, ◌∙◌, Bool-cases, inl, inr, arith,
}
use nazman.Notifications.{
  Level, Note, Connection, closed, opened, unavailable, Journal, Sqlite, ensured, ensure_conn, runs,
  stays, insert_row, add, with_rows, mark_read, clear, prune, close, is_listed, is_recent, is_due,
  id_or_zero, max_id, is_open,
}
use nazman.Notifications.Journals.{
  Within, Within-select, Within-raise, Within-append, Within-read, Within-length,
}

-- The calls on a journal while the settings give it n rows.
pub data Step (n : ℕ) : Journal → Journal → Type 0 where
  adding :
      (env : Sqlite) (level : Level) (title : Option String) (message : String)
      (source : Option String) (j : Journal)
      → env.configured_size ≡ pos n
      → Step n j (add env level title message source j).1
  marking :
      (ids : Option (List ℕ)) (env : Sqlite) (j : Journal)
      → env.configured_size ≡ pos n
      → Step n j (mark_read ids env j)
  clearing : (env : Sqlite) (j : Journal) → env.configured_size ≡ pos n → Step n j (clear env j)
  pruning : (env : Sqlite) (j : Journal) → env.configured_size ≡ pos n → Step n j (prune env j)
  closing : (j : Journal) → Step n j (close j)

-- `NotificationStore()` over a new database
abbrev pub created : ℕ → ℤ → Journal
created n days = record {
  connection = closed;
  size = pos n;
  retention_days = days;
  pruned_at = none;
  rows = [];
  next_id = 1;
}

pub data Reached (n : ℕ) : Journal → Type 0 where
  new : (days : ℤ) → Reached n (created n days)
  next : {j j' : Journal} → Reached n j → Step n j j' → Reached n j'

abbrev pub IsRing : ℕ → Journal → Type 0
IsRing n j = (j.size ≡ pos n) × Within (j.next_id - n) j.next_id j.rows

ensured-IsRing :
    (c : Connection) (n : ℕ) (env : Sqlite) (j : Journal)
    → env.configured_size ≡ pos n
    → IsRing n j
    → IsRing n (ensured c env j)
ensured-IsRing closed n env j e (s, w) = (e, w)
ensured-IsRing opened n env j e ring = ring
ensured-IsRing unavailable n env j e ring = ring

ensure_conn-IsRing :
    (n : ℕ) (env : Sqlite) (j : Journal)
    → env.configured_size ≡ pos n
    → IsRing n j
    → IsRing n (ensure_conn env j)
ensure_conn-IsRing n env j = ensured-IsRing j.connection n env j

with_rows-IsRing :
    (f : List Note → List Note)
    → ((lo hi : ℕ) (rows : List Note) → lo ≤ hi → Within lo hi rows → Within lo hi (f rows))
    → (n : ℕ) (env : Sqlite) (j : Journal) → env.configured_size ≡ pos n
    → IsRing n j
    → IsRing n (with_rows f env j)
with_rows-IsRing f keeps n env j e ring =
    let j' = ensure_conn env j in
    let (s, w) = ensure_conn-IsRing n env j e ring in
    elim (Bool-cases (runs env j')) [
      | inl going ↦ rw going (s, keeps (j'.next_id - n) j'.next_id j'.rows (omega arith) w)
      | inr not_going ↦ rw not_going (s, w)
    ]

stays_lem : (n new_id : ℕ) (r : Note) → stays (pos n) new_id r ≡ true → suc new_id - n ≤ r.id
stays_lem n new_id r h = ground arith

insert_row-IsRing :
    (n : ℕ) (env : Sqlite) (level : Level) (title : Option String) (message : String)
    (source : Option String) (j : Journal)
    → IsRing n j
    → IsRing n (insert_row env level title message source j)
unfolding insert_row
insert_row-IsRing n env level title message source j (s, w) =
    let row : Note = record {
      id = j.next_id;
      ts = env.now;
      level = level;
      title = title;
      message = message;
      source = source;
      read = false;
    } in
    (
      s,
      rw s (
          Within-raise (stays (pos n) j.next_id) (suc j.next_id - n) (j.next_id - n) (suc j.next_id)
            (j.rows ++ row ∷ []) (stays_lem n j.next_id) (omega arith)
            (Within-append row (j.next_id - n) j.rows w)),
    )

add-IsRing :
    (n : ℕ) (env : Sqlite) (level : Level) (title : Option String) (message : String)
    (source : Option String) (j : Journal)
    → env.configured_size ≡ pos n
    → IsRing n j
    → IsRing n (add env level title message source j).1
unfolding add
add-IsRing n env level title message source j e ring =
    let j' = ensure_conn env j in
    let kept = ensure_conn-IsRing n env j e ring in
    elim (Bool-cases (runs env j')) [
      | inl going ↦ rw going (insert_row-IsRing n env level title message source j' kept)
      | inr not_going ↦ rw not_going kept
    ]

prune-IsRing :
    (n : ℕ) (env : Sqlite) (j : Journal)
    → env.configured_size ≡ pos n
    → IsRing n j
    → IsRing n (prune env j)
unfolding prune
prune-IsRing n env j e ring =
    let cut = is_recent j.retention_days env.now in
    elim (Bool-cases (is_due j.pruned_at env.now)) [
      | inl due ↦ rw due (
          with_rows-IsRing (select cut) (λ lo hi rows _ w. Within-select cut lo hi rows w) n env j e
            ring)
      | inr early ↦ rw early ring
    ]

Step-IsRing : {n : ℕ} {j j' : Journal} → Step n j j' → IsRing n j → IsRing n j'
unfolding mark_read clear
Step-IsRing {n} (adding env level title message source j e) ring =
    add-IsRing n env level title message source j e ring
Step-IsRing {n} (marking ids env j e) ring =
    with_rows-IsRing _ (λ lo hi rows _ w. Within-read (is_listed ids) lo hi rows w) n env j e ring
Step-IsRing {n} (clearing env j e) ring =
    with_rows-IsRing (λ _. []) (λ lo hi rows le w. le) n env j e ring
Step-IsRing {n} (pruning env j e) ring = prune-IsRing n env j e ring
Step-IsRing {n} (closing j) ring = ring

Reached-IsRing : {n : ℕ} {j : Journal} → Reached n j → IsRing n j
Reached-IsRing {n} (new days) = (refl, omega arith)
Reached-IsRing {n} (next before step) = Step-IsRing step (Reached-IsRing before)

-- A journal that is reached from a new one by calls of add, mark_read, clear, prune and close, while
-- the settings give it n rows, holds at most n rows, in ascending order of their ids, which are
-- among the last n ids given.
pub journal_is_circular :
    (n : ℕ) (j : Journal)
    → Reached n j
    → (length j.rows ≤ n) × Within (j.next_id - n) j.next_id j.rows
journal_is_circular n j reached =
    let (s, w) = Reached-IsRing reached in
    let bound = Within-length (j.next_id - n) j.next_id j.rows w in (omega arith, w)

last-cons : (r r' : Note) (rows : List Note) → last? rows ≡ some r → last? (r' ∷ rows) ≡ some r
last-cons r r' [] h = cc
last-cons r r' (r'' ∷ rows) h = h

last-append :
    (p : Note → Bool) (r : Note) (rows : List Note)
    → p r ≡ true
    → last? (select p (rows ++ r ∷ [])) ≡ some r
last-append p r [] h = rw h refl
last-append p r (r' ∷ rows) h =
    let later = last-append p r rows h in
    elim (Bool-cases (p r')) [
      | inl e ↦ rw e (last-cons r r' (select p (rows ++ r ∷ [])) later)
      | inr e ↦ rw e later
    ]

stays_new : (n i : ℕ) (r : Note) → r.id ≡ i → stays (pos (suc n)) i r ≡ true
stays_new n i r h = ground arith

insert_row-last :
    (n : ℕ) (env : Sqlite) (level : Level) (title : Option String) (message : String)
    (source : Option String) (j : Journal)
    → j.size ≡ pos (suc n)
    → id_or_zero (last? (insert_row env level title message source j).rows) ≡ j.next_id
unfolding insert_row
insert_row-last n env level title message source j s =
    let row : Note = record {
      id = j.next_id;
      ts = env.now;
      level = level;
      title = title;
      message = message;
      source = source;
      read = false;
    } in
    rw s (
      ap id_or_zero
        (last-append (stays (pos (suc n)) j.next_id) row j.rows (stays_new n j.next_id row refl)))

ensured_open :
    (c : Connection) (env : Sqlite) (j : Journal) → is_open c ≡ true → ensured c env j ≡ j
ensured_open closed env j h = cc
ensured_open opened env j h = refl
ensured_open unavailable env j h = cc

-- a call that ran has left the connection open
runs-is_open :
    (env : Sqlite) (c : Connection) → (is_open c && not env.fails) ≡ true → is_open c ≡ true
runs-is_open env closed h = h
runs-is_open env opened h = refl
runs-is_open env unavailable h = h

max_id_open :
    (env : Sqlite) (j : Journal)
    → is_open j.connection ≡ true
    → env.fails ≡ false
    → (max_id env j).0 ≡ id_or_zero (last? j.rows)
unfolding max_id
max_id_open env j stands works =
    rw (ensured_open j.connection env j stands) (rw stands (rw works refl))

-- While the settings give the journal at least one row, max_id answers after an add that returned
-- an id with this id, if its own statement runs.
pub add-max_id :
    (n : ℕ) (env env' : Sqlite) (level : Level) (title : Option String) (message : String)
    (source : Option String) (j : Journal) (i : ℕ)
    → Reached (suc n) j
    → env.configured_size ≡ pos (suc n)
    → (add env level title message source j).0 ≡ some i
    → env'.fails ≡ false
    → (max_id env' (add env level title message source j).1).0 ≡ i
unfolding add insert_row
add-max_id n env env' level title message source j i reached e added works =
    let j' = ensure_conn env j in
    let (s, w) = ensure_conn-IsRing (suc n) env j e (Reached-IsRing reached) in
    elim (Bool-cases (runs env j')) [
      | inl going ↦
          let stands = runs-is_open env j'.connection going in
          let given : some j'.next_id ≡ some i = rw going at added in
          rw going (
            max_id_open env' (insert_row env level title message source j') stands works
            ∙ insert_row-last n env level title message source j' s
            ∙ cc)
      | inr not_going ↦ absurd (cc)
    ]
