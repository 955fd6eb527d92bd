-- ===== src/Destruction.antt =====
-- nazman/services/destruction.py: the destruction of pools and datasets. The commands are a
-- parameter, and every change that is asked of the system is logged in order. The messages are
-- constructors.
pub mod Logs
pub mod Order
pub mod Datasets
pub mod Fates
mod Samples
use nazman.Prelude.{
  ℕ, String, Bool, true, false, not, ◌&&◌, ◌||◌, Option, none, some, List, [], ◌∷◌, ◌++◌, map,
  select, any, is_empty, leb, length, Result, ok, err, Exec, pure, raise, gets, modify, ◌>>=◌, ◌>>◌,
  guard_not, str_eq, strip, if◌then◌else◌,
}
use nazman.Prelude.Texts.{after_last, words}
use nazman.Validation.{Invalid, validate_pool_name}
use text.Mathlib.Text.{starts_with}

pub data Error : Type 0 where
  invalid : Invalid → Error
  in_use : Error
  busy : String → Error
  command_error : Error
  not_destroyed : Error

pub data Effect : Type 0 where
  unexported unshared : String → Effect
  unmounted : String → Effect
  destroyed_pool : String → Effect
  destroyed_dataset : Bool → String → Effect

-- What the service asks of ZFS, NFS and SMB.
pub record Host (W : Type 0) : Type 0 where
  -- the filesystems below a root, or nothing where the command raised
  pub filesystems : String → W → Option (List String)
  pub is_mounted : String → W → Bool
  -- whether the command succeeded, or nothing where it raised
  pub unmount : String → W → Option Bool × W
  pub nfs_clients : List String → W → List String
  -- the output of `smbstatus`, in lines, and nothing where it is not available
  pub smb_status : W → Option (List String)
  pub smb_active : List String → W → List String
  pub smb_shares : W → List String
  -- what these two raise is swallowed: they are logged as asked for, done or not
  pub unexport : String → W → W
  pub unshare : String → W → W
  pub zpool_destroy : String → W → Option Bool × W
  pub zfs_destroy : Bool → String → W → Option Bool × W

pub record Site (W : Type 0) : Type 0 where
  -- the names in the table of pools
  pub pools : List String
  pub world : W
  pub log : List Effect

abbrev pub Act : Type 0 → Type 0 → Type 0
Act W A = Exec (Site W) Error A

-- one line of the table of services
abbrev host_of : String → List String → Option String
host_of share (a ∷ pid ∷ h ∷ rest) = if str_eq a share then some h else none
host_of share _ = none

abbrev with_host : Option String → List String → List String
with_host none hosts = hosts
with_host (some h) hosts = if any (λ x. str_eq x h) hosts then hosts else hosts ++ h ∷ []

-- the loop over the lines, in or before the table
unfoldable pub hosts_in : String → Bool → List String → List String → List String
hosts_in share in_services [] hosts = hosts
hosts_in share in_services (line ∷ lines) hosts =
    let later = hosts_in share true lines in
    let before = hosts_in share in_services lines in
    if starts_with (strip line) "Service"
    then later hosts
    else if not in_services || str_eq (strip line) ""
    then before hosts
    else before (with_host (host_of share (words (strip line))) hosts)

module _ {W : Type 0} (host : Host W) where
  unfoldable pub smb_clients_for : String → W → List String
  unfolding hosts_in
  smb_clients_for dataset_name w = elim (host.smb_status w) [
    | none ↦ []
    | some lines ↦ hosts_in (after_last 47 dataset_name) false lines []
  ]

  abbrev pub sees : {A : Type 0} → (W → A) → Act W A
  sees f s = (ok (f s.world), s)

  abbrev does : Effect → (W → W) → Act W Unit
  does e f s = (ok tt, record s { world = f s.world; log = s.log ++ e ∷ [] })

  abbrev pub answered : {A : Type 0} → Option A → Act W A
  answered none s = (err command_error, s)
  answered (some a) s = (ok a, s)

  abbrev pub list_filesystem_names : String → Act W (List String)
  list_filesystem_names root s = answered (host.filesystems root s.world) s

  -- a command that changes the system: it is logged where it succeeds
  abbrev pub outcome : Effect → Error → Option Bool × W → Act W Unit
  outcome e failed (none, w) s = (err command_error, record s { world = w })
  outcome e failed (some false, w) s = (err failed, record s { world = w })
  outcome e failed (some true, w) s = (ok tt, record s { world = w; log = s.log ++ e ∷ [] })

  abbrev pub runs : Effect → Error → (W → Option Bool × W) → Act W Unit
  runs e failed f s = outcome e failed (f s.world) s

  unfoldable pub unmount_each : List String → Act W Unit
  unfolding ◌>>=◌
  unmount_each [] = pure tt
  unmount_each (ds ∷ rest) =
      let others = unmount_each rest in do runs (unmounted ds) (busy ds) (host.unmount ds); others

  unfoldable pub mounted_names : List String → W → List String
  mounted_names names w = select (λ ds. host.is_mounted ds w) names

  unfoldable pub unmount_names : List String → Act W Unit
  unfolding unmount_each mounted_names ◌>>=◌
  unmount_names names = do mounted ← sees (mounted_names names); unmount_each mounted

  abbrev or_self : List String → String → List String
  or_self [] pool_name = pool_name ∷ []
  or_self (n ∷ ns) pool_name = n ∷ ns

  -- the clients that hold the pool
  -- the NFS and SMB clients of the paths
  abbrev pub probes : String → List String → Act W Bool
  probes pool_name names =
      let probed = or_self names pool_name in
      sees (λ w.
        not (is_empty (host.nfs_clients probed w)) || not (is_empty (host.smb_active probed w)))

  unfoldable pub pool_destroy_obstacles : String → Act W Bool
  unfolding ◌>>=◌
  pool_destroy_obstacles pool_name = do
    names ← list_filesystem_names pool_name
    probes pool_name names

  abbrev pub teardown : Bool → String → Act W Unit
  teardown false pool_name = pure tt
  teardown true pool_name = do
    does (unexported pool_name) (host.unexport pool_name)
    does (unshared pool_name) (host.unshare pool_name)

  abbrev pub forget : Bool → String → Act W Unit
  forget false pool_name = pure tt
  forget true pool_name =
      modify (λ s. record s { pools = select (λ p. not (str_eq p pool_name)) s.pools })

  -- the part that destroys, once no client is connected
  unfoldable pub tear_down_pool : String → Bool → Act W Unit
  unfolding unmount_names ◌>>=◌
  tear_down_pool pool_name known = do
    teardown known pool_name
    names ← list_filesystem_names pool_name
    unmount_names (pool_name ∷ names)
    runs (destroyed_pool pool_name) not_destroyed (host.zpool_destroy pool_name)
    forget known pool_name

  abbrev pub valid : Result Invalid String → Act W Unit
  valid (ok s) = pure tt
  valid (err e) = raise (invalid e)

  unfoldable pub destroy_pool : String → Act W Unit
  unfolding tear_down_pool pool_destroy_obstacles ◌>>=◌
  destroy_pool pool_name = do
    valid (validate_pool_name pool_name)
    known ← gets (λ s. any (λ p. str_eq p pool_name) s.pools)
    held ← pool_destroy_obstacles pool_name
    guard_not held in_use
    tear_down_pool pool_name known

  -- an NFS client, a share over SMB or an open SMB connection
  unfoldable pub dataset_destroy_obstacles : String → W → Bool
  unfolding smb_clients_for
  dataset_destroy_obstacles dataset_name w =
      not (is_empty (host.nfs_clients (dataset_name ∷ []) w))
      || any (λ s. str_eq s dataset_name) (host.smb_shares w)
      || not (is_empty (smb_clients_for dataset_name w))

  abbrev pub below : Bool → String → Act W (List String)
  below false dataset_name = pure (dataset_name ∷ [])
  below true dataset_name = do
    names ← list_filesystem_names dataset_name
    pure (dataset_name ∷ names)

  unfoldable pub destroy_dataset : String → Bool → Act W Unit
  unfolding dataset_destroy_obstacles unmount_names ◌>>=◌
  destroy_dataset dataset_name recursive = do
    held ← sees (dataset_destroy_obstacles dataset_name)
    guard_not held in_use
    names ← below recursive dataset_name
    unmount_names names
    runs (destroyed_dataset recursive dataset_name) not_destroyed
        (host.zfs_destroy recursive dataset_name)
