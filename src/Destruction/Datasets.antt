-- ===== src/Destruction/Datasets.antt =====
-- The destruction of one dataset, with those below it or without.
use nazman.Prelude.{
  ◌≡◌, refl, String, Bool, true, false, List, [], ◌∷◌, ◌++◌, map, Option, none, some, ok, continue,
  ◌>>=◌, ◌>>◌, guard_not, select,
}
use nazman.Destruction.{
  Host, Site, Act, unmounted, destroyed_dataset, in_use, not_destroyed, runs, mounted_names,
  unmount_names, answered, below, dataset_destroy_obstacles, destroy_dataset,
}
use nazman.Destruction.Logs.{Logs, Logs-bind, Logs-outcome, Logs-unmount_each}

module _ {W : Type 0} (host : Host W) (dataset_name : String) (recursive : Bool) where
  -- what follows once the datasets are known
  abbrev removal : List String → Act W Unit
  removal names = do
    unmount_names host names
    runs host (destroyed_dataset recursive dataset_name) not_destroyed
        (host.zfs_destroy recursive dataset_name)

  Logs-removal :
      (names : List String) (s : Site W)
      → Logs s
          (map unmounted (mounted_names host names s.world)
            ++ destroyed_dataset recursive dataset_name ∷ [])
          (removal names s)
  unfolding unmount_names mounted_names ◌>>=◌
  Logs-removal names s =
      Logs-bind host (unmount_names host names) _ s
        (map unmounted (mounted_names host names s.world))
        (destroyed_dataset recursive dataset_name ∷ [])
        (Logs-unmount_each host (mounted_names host names s.world) s)
        λ _ s'.
          Logs-outcome host (destroyed_dataset recursive dataset_name) not_destroyed
            (host.zfs_destroy recursive dataset_name s'.world) s'

  -- the datasets below it, as ZFS lists them, which are looked for only if the call is recursive
  abbrev pub IsBelow : Bool → Site W → List String → Type 0
  IsBelow false s others = others ≡ []
  IsBelow true s others = host.filesystems dataset_name s.world ≡ some others

  abbrev Removed : Bool → Site W → Site W → Type 0
  Removed b s s' =
      (others : List String) × IsBelow b s others
      × (s'.log
          ≡ s.log
            ++ (map unmounted (select (λ ds. host.is_mounted ds s.world) (dataset_name ∷ others))
                ++ destroyed_dataset recursive dataset_name ∷ []))
      × (s'.pools ≡ s.pools)

  removed :
      (s : Site W)
      → ((below host recursive dataset_name >>= removal) s).0 ≡ ok tt
      → Removed recursive s ((below host recursive dataset_name >>= removal) s).1
  unfolding ◌>>=◌ mounted_names
  removed s = go recursive
    where
      these :
          (b : Bool) (names : List String)
          → IsBelow b s names
          → (removal (dataset_name ∷ names) s).0 ≡ ok tt
          → Removed b s (removal (dataset_name ∷ names) s).1
      these b names are h =
          let logs = Logs-removal (dataset_name ∷ names) s in
          (names, are, logs.grown tt h, logs.same)

      found :
          (o : Option (List String))
          → host.filesystems dataset_name s.world ≡ o
          → (continue
              (continue
                (answered host o s).0
                (λ names t. (ok (dataset_name ∷ names), t))
                (answered host o s).1).0
              removal
              (continue
                (answered host o s).0
                (λ names t. (ok (dataset_name ∷ names), t))
                (answered host o s).1).1).0
            ≡ ok tt
          → Removed true s
              (continue
                (continue
                  (answered host o s).0
                  (λ names t. (ok (dataset_name ∷ names), t))
                  (answered host o s).1).0
                removal
                (continue
                  (answered host o s).0
                  (λ names t. (ok (dataset_name ∷ names), t))
                  (answered host o s).1).1).1
      found none e h = absurd (cc)
      found (some names) e h = these true names e h

      go :
          (b : Bool)
          → (continue (below host b dataset_name s).0 removal (below host b dataset_name s).1).0
            ≡ ok tt
          → Removed b s
              (continue (below host b dataset_name s).0 removal (below host b dataset_name s).1).1
      go false = these false [] refl
      go true = found (host.filesystems dataset_name s.world) refl

  -- When `destroy_dataset` returns, no client or share was in the way, each of its datasets that
  -- was mounted was unmounted, itself first and then, if the call is recursive, those that ZFS lists
  -- below it, the destruction came last, and no pool was touched.
  pub destroy_dataset_lem :
      (s : Site W)
      → (destroy_dataset host dataset_name recursive s).0 ≡ ok tt
      → (dataset_destroy_obstacles host dataset_name s.world ≡ false)
        × ((others : List String) × IsBelow recursive s others
            × ((destroy_dataset host dataset_name recursive s).1.log
                ≡ s.log
                  ++ (map unmounted
                        (select (λ ds. host.is_mounted ds s.world) (dataset_name ∷ others))
                      ++ destroyed_dataset recursive dataset_name ∷ []))
            × ((destroy_dataset host dataset_name recursive s).1.pools ≡ s.pools))
  unfolding destroy_dataset ◌>>=◌
  destroy_dataset_lem s h = go (dataset_destroy_obstacles host dataset_name s.world) refl h
    where
      go :
          (b : Bool)
          → dataset_destroy_obstacles host dataset_name s.world ≡ b
          → ((guard_not b in_use >>= λ _. below host recursive dataset_name >>= removal) s).0
            ≡ ok tt
          → (dataset_destroy_obstacles host dataset_name s.world ≡ false)
            × Removed recursive s
                ((guard_not b in_use >>= λ _. below host recursive dataset_name >>= removal) s).1
      go true e h' = absurd (cc)
      go false e h' = (e, removed s h')
