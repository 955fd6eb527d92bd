-- ===== src/Notifications/Journals.antt =====
-- Rows in the order of their ids, within two bounds.
use nazman.Prelude.{
  ℕ, suc, ◌+◌, ◌≤◌, Bool, true, ◌≡◌, List, [], ◌∷◌, ◌++◌, select, update_where, length, Bool-cases,
  inl, inr, arith,
}
use nazman.Notifications.{Note}

-- the ids ascend, from the first bound on and below the second
abbrev pub Within : ℕ → ℕ → List Note → Type 0
Within lo hi [] = lo ≤ hi
Within lo hi (r ∷ rows) = lo ≤ r.id × Within (suc r.id) hi rows

pub Within-weaken :
    (lo lo' hi : ℕ) (rows : List Note) → lo' ≤ lo → Within lo hi rows → Within lo' hi rows
Within-weaken lo lo' hi [] h w = omega arith
Within-weaken lo lo' hi (r ∷ rows) h (a, w) = (omega arith, w)

pub Within-select :
    (p : Note → Bool) (lo hi : ℕ) (rows : List Note)
    → Within lo hi rows
    → Within lo hi (select p rows)
Within-select p lo hi [] w = w
Within-select p lo hi (r ∷ rows) (a, w) =
    let rest = Within-select p (suc r.id) hi rows w in
    elim (Bool-cases (p r)) [
      | inl e ↦ rw e (a, rest)
      | inr e ↦ rw e (Within-weaken (suc r.id) lo hi (select p rows) (omega arith) rest)
    ]

-- A test that only rows from a bound on pass makes it a lower bound.
pub Within-raise :
    (p : Note → Bool) (lo' lo hi : ℕ) (rows : List Note)
    → ((r : Note) → p r ≡ true → lo' ≤ r.id)
    → lo' ≤ hi
    → Within lo hi rows
    → Within lo' hi (select p rows)
Within-raise p lo' lo hi [] above h w = h
Within-raise p lo' lo hi (r ∷ rows) above h (a, w) = elim (Bool-cases (p r)) [
  | inl e ↦ rw e (above r e, Within-select p (suc r.id) hi rows w)
  | inr e ↦ rw e (Within-raise p lo' (suc r.id) hi rows above h w)
]

pub Within-append :
    (r : Note) (lo : ℕ) (rows : List Note)
    → Within lo r.id rows
    → Within lo (suc r.id) (rows ++ r ∷ [])
Within-append r lo [] w = (w, omega arith)
Within-append r lo (r' ∷ rows) (a, w) = (a, Within-append r (suc r'.id) rows w)

pub Within-read :
    (p : Note → Bool) (lo hi : ℕ) (rows : List Note)
    → Within lo hi rows
    → Within lo hi (update_where p (λ r. record r { read = true }) rows)
Within-read p lo hi [] w = w
Within-read p lo hi (r ∷ rows) (a, w) =
    let rest = Within-read p (suc r.id) hi rows w in
    elim (Bool-cases (p r)) [ inl e ↦ rw e (a, rest) | inr e ↦ rw e (a, rest) ]

pub Within-length : (lo hi : ℕ) (rows : List Note) → Within lo hi rows → lo + length rows ≤ hi
Within-length lo hi [] w = omega arith
Within-length lo hi (r ∷ rows) (a, w) = let rest = Within-length (suc r.id) hi rows w in omega arith
