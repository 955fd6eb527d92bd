-- ===== src/Destruction/Samples.antt =====
-- A pool with two datasets, one of them mounted.
use nazman.Prelude.{
  ℕ, ◌≡◌, refl, String, Bool, true, false, List, [], ◌∷◌, ◌++◌, map, Option, none, some, Result, ok,
  err, str_eq, select, if◌then◌else◌,
}
use nazman.Destruction.{
  Host, Site, unmounted, destroyed_pool, destroyed_dataset, unexported, unshared, mounted_names,
  dataset_destroy_obstacles, destroy_pool, destroy_dataset,
}
use nazman.Destruction.Order.{torn, is_known, destroy_pool_lem}
use nazman.Destruction.Datasets.{IsBelow, destroy_dataset_lem}

-- The world is the one dataset that cannot be unmounted, if there is one.
abbrev sample_host : Host String
sample_host = record {
  filesystems = λ root w. some ("tank/a" ∷ "tank/b" ∷ []);
  is_mounted = λ ds w. str_eq ds "tank/b";
  unmount = λ ds w. (some (if str_eq ds w then false else true), w);
  nfs_clients = λ paths w. [];
  smb_status = λ w. none;
  smb_active = λ paths w. [];
  smb_shares = λ w. [];
  unexport = λ pool w. w;
  unshare = λ pool w. w;
  zpool_destroy = λ pool w. (some true, w);
  zfs_destroy = λ recursive ds w. (some true, w);
}

abbrev idle_site : Site String
idle_site = record { pools = "tank" ∷ "backup" ∷ []; world = ""; log = [] }

abbrev busy_site : Site String
busy_site = record { pools = "tank" ∷ []; world = "tank/b"; log = [] }

commands :
    (destroy_pool sample_host "tank" idle_site).1.log
    ≡ unexported "tank" ∷ unshared "tank" ∷ unmounted "tank/b" ∷ destroyed_pool "tank" ∷ []
unfolding destroy_pool nazman.Validation.validate_pool_name nazman.Prelude.Texts.text_length
    nazman.Validation.all_in
commands = refl

destroy_pool_example :
    (w : String) × (names : List String) × (sample_host.filesystems "tank" w ≡ some names)
    × ((destroy_pool sample_host "tank" idle_site).1.log
        ≡ []
          ++ (torn true "tank"
              ++ (map unmounted (mounted_names sample_host ("tank" ∷ names) w)
                  ++ destroyed_pool "tank" ∷ [])))
    × (is_known "tank" (destroy_pool sample_host "tank" idle_site).1.pools ≡ false)
unfolding destroy_pool nazman.Validation.validate_pool_name nazman.Prelude.Texts.text_length
    nazman.Validation.all_in
destroy_pool_example = destroy_pool_lem sample_host "tank" idle_site refl

destroy_dataset_example :
    (dataset_destroy_obstacles sample_host "tank" "" ≡ false)
    × ((others : List String) × IsBelow sample_host "tank" true true idle_site others
        × ((destroy_dataset sample_host "tank" true idle_site).1.log
            ≡ []
              ++ (map unmounted (select (λ ds. sample_host.is_mounted ds "") ("tank" ∷ others))
                  ++ destroyed_dataset true "tank" ∷ []))
        × ((destroy_dataset sample_host "tank" true idle_site).1.pools ≡ idle_site.pools))
unfolding destroy_dataset
destroy_dataset_example = destroy_dataset_lem sample_host "tank" true idle_site refl
