-- ===== src/Destruction/Order.antt =====
-- The order of a destruction: what is unmounted before, and what a refusal leaves.
use nazman.Prelude.{
  ◌≡◌, refl, ap, ◌∙◌, String, Bool, true, false, not, Option, none, some, List, [], ◌∷◌, ◌++◌, map,
  select, any, Result, ok, err, continue, ◌>>=◌, guard_not, str_eq, Bool-cases, inl, inr,
}
use nazman.Validation.{Invalid, validate_pool_name}
use nazman.Destruction.{
  Error, Effect, Host, Site, unmounted, destroyed_pool, unexported, unshared, in_use, mounted_names,
  answered, probes, pool_destroy_obstacles, tear_down_pool, valid, destroy_pool,
}
use nazman.Destruction.Logs.{append_assoc}
use nazman.Destruction.Fates.{left, Ordered-listed}

-- the shares that are torn down first, of a pool that is in the table
abbrev pub torn : Bool → String → List Effect
torn false pool_name = []
torn true pool_name = unexported pool_name ∷ unshared pool_name ∷ []

-- the name of the pool is among the names
abbrev pub is_known : String → List String → Bool
is_known pool_name pools = any (λ p. str_eq p pool_name) pools

not-is_known :
    (pool_name : String) (pools : List String)
    → is_known pool_name (select (λ p. not (str_eq p pool_name)) pools) ≡ false
not-is_known pool_name [] = refl
not-is_known pool_name (p ∷ ps) = elim (Bool-cases (str_eq p pool_name)) [
  | inl e ↦ rw e (not-is_known pool_name ps)
  | inr e ↦ rw (e, not-is_known pool_name ps, e) refl
]

left-is_known :
    (known : Bool) (pool_name : String) (pools : List String)
    → is_known pool_name pools ≡ known
    → is_known pool_name (left known pool_name pools) ≡ false
left-is_known true pool_name pools h = not-is_known pool_name pools
left-is_known false pool_name pools h = h

module _ {W : Type 0} (host : Host W) (pool_name : String) where
  -- what a destruction that returned has done
  abbrev Done : Bool → Site W → Site W → Type 0
  Done known s s' =
      (w : W) × (names : List String) × (host.filesystems pool_name w ≡ some names)
      × (s'.log
          ≡ s.log
            ++ (torn known pool_name
                ++ (map unmounted (mounted_names host (pool_name ∷ names) w)
                    ++ destroyed_pool pool_name ∷ [])))
      × (is_known pool_name s'.pools ≡ false)

  torn_down :
      (known : Bool) (s : Site W)
      → is_known pool_name s.pools ≡ known
      → ((tear_down_pool host pool_name known s).0 ≡ ok tt
          → Done known s (tear_down_pool host pool_name known s).1)
        × ((e : Error)
            → (tear_down_pool host pool_name known s).0 ≡ err e
            → (tear_down_pool host pool_name known s).1.pools ≡ s.pools)
  unfolding tear_down_pool ◌>>=◌
  torn_down false s known =
      let (done, kept) = Ordered-listed host false pool_name s in
      (
        λ h.
            let o = done h in
            (
              o.world,
              o.names,
              o.below,
              o.logged,
              ap (is_known pool_name) o.gone ∙ left-is_known false pool_name s.pools known,
            ),
        kept,
      )
  torn_down true s known =
      let s1 : Site W = record {
        pools = s.pools;
        world = host.unshare pool_name (host.unexport pool_name s.world);
        log = s.log ++ unexported pool_name ∷ [] ++ unshared pool_name ∷ [];
      } in
      let (done, kept) = Ordered-listed host true pool_name s1 in
      (
        λ h.
            let o = done h in
            (
              o.world,
              o.names,
              o.below,
              o.logged
                  ∙ append_assoc (s.log ++ unexported pool_name ∷ []) (unshared pool_name ∷ []) _
                  ∙ append_assoc s.log (unexported pool_name ∷ []) _,
              ap (is_known pool_name) o.gone ∙ left-is_known true pool_name s.pools known,
            ),
        kept,
      )

  -- The three tests: either the call is refused and nothing has changed, or the pool is torn down.
  tested :
      (Q : Result Error Unit × Site W → Type 0) (s : Site W)
      → ((e : Error) → Q (err e, s))
      → Q (tear_down_pool host pool_name (is_known pool_name s.pools) s)
      → Q (destroy_pool host pool_name s)
  unfolding destroy_pool pool_destroy_obstacles ◌>>=◌
  tested Q s refused torn = named (validate_pool_name pool_name)
    where
      held :
          (b : Bool)
          → Q (
              (guard_not b in_use >>= λ _.
              tear_down_pool host pool_name (is_known pool_name s.pools))
                s)
      held true = refused in_use
      held false = torn

      below :
          (o : Option (List String))
          → Q (
              continue
                (continue (answered host o s).0 (probes host pool_name) (answered host o s).1).0
                (λ b. guard_not b in_use >>= λ _.
                  tear_down_pool host pool_name (is_known pool_name s.pools))
                (continue (answered host o s).0 (probes host pool_name) (answered host o s).1).1)
      below none = refused _
      below (some names) = held _

      named :
          (v : Result Invalid String)
          → Q (
              continue
                (valid host v s).0
                (λ _. (λ t. (ok (is_known pool_name t.pools), t)) >>= λ known.
                  pool_destroy_obstacles host pool_name >>= λ b.
                  guard_not b in_use >>= λ _. tear_down_pool host pool_name known)
                (valid host v s).1)
      named (err e) = refused _
      named (ok n) = below (host.filesystems pool_name s.world)

-- When `destroy_pool` returns, the shares of the pool were torn down first, if it is in the table,
-- then each dataset that was mounted by then was unmounted, the pool's own among them, and the
-- destruction came last. No pool of that name is left in the table.
pub destroy_pool_lem :
    {W : Type 0} (host : Host W) (pool_name : String) (s : Site W)
    → (destroy_pool host pool_name s).0 ≡ ok tt
    → (w : W) × (names : List String) × (host.filesystems pool_name w ≡ some names)
      × ((destroy_pool host pool_name s).1.log
          ≡ s.log
            ++ (torn (is_known pool_name s.pools) pool_name
                ++ (map unmounted (mounted_names host (pool_name ∷ names) w)
                    ++ destroyed_pool pool_name ∷ [])))
      × (is_known pool_name (destroy_pool host pool_name s).1.pools ≡ false)
destroy_pool_lem host pool_name s =
    let known = is_known pool_name s.pools in
    tested host pool_name (λ r. r.0 ≡ ok tt → Done host pool_name known s r.1) s
      (λ e h. absurd (cc)) (torn_down host pool_name known s refl).0

-- A `destroy_pool` that raises leaves the table of pools as it was.
destroy_pool-refused :
    {W : Type 0} (host : Host W) (pool_name : String) (s : Site W) (e : Error)
    → (destroy_pool host pool_name s).0 ≡ err e
    → (destroy_pool host pool_name s).1.pools ≡ s.pools
destroy_pool-refused host pool_name s e =
    tested host pool_name (λ r. r.0 ≡ err e → r.1.pools ≡ s.pools) s (λ _ _. refl)
      ((torn_down host pool_name (is_known pool_name s.pools) s refl).1 e)
