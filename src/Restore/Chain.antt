-- ===== src/Restore/Chain.antt =====
-- `_chain` and `_chosen_datasets` of nazman/services/system_restore.py: which streams of which
-- datasets a restore replays, and in which order. A selection names its dataset.
pub mod Latest
pub mod Chosen
use nazman.Prelude.{
  ℕ, suc, String, Bool, true, false, not, ◌&&◌, Option, none, some, List, [], ◌∷◌, leb, drop,
  select, last?, is_some, is_empty, any, str_eq, option_or_none, ◌==◌, if◌then◌else◌,
}
use nazman.Prelude.Order.{sort}
use nazman.Prelude.Keyed.{has_key}
use nazman.Prelude.Texts.{count_code, split_once}
use nazman.Manifest.{RunEntry, DatasetEntry, Manifest, texts, text_eq, name_key, older_first}
use Prim.Native.String.{◌++◌ as ◌<>◌}

abbrev pub is_full : RunEntry → Bool
is_full b = text_eq b.kind (some "full")

-- the loop that keeps the place of the last full stream
abbrev pub last_full : ℕ → Option ℕ → List RunEntry → Option ℕ
last_full i found [] = found
last_full i found (b ∷ bs) = last_full (suc i) (if is_full b then some i else found) bs

abbrev pub from_place : Option ℕ → List RunEntry → List RunEntry
from_place none ordered = ordered
from_place (some i) ordered = drop i ordered

unfoldable pub chain : List RunEntry → List RunEntry
chain backups =
    let ordered = sort older_first backups in from_place (last_full 0 none ordered) ordered

pub record Selection : Type 0 where
  pub source_dataset : String
  pub target_pool : Option String
  pub enabled : Bool

pub record Choice : Type 0 where
  pub source : String
  pub target : String
  pub chain : List RunEntry

-- `source.split("/", 1)[1] if "/" in source else source`
unfoldable pub leaf_of : String → String
unfolding count_code split_once
leaf_of source = if count_code b'/' source == 0 then source else (split_once b'/' source).1

-- `{d["name"]: d for d in datasets}.get(source)`: of one name the last
abbrev pub by_name : String → List DatasetEntry → Option DatasetEntry
by_name source datasets = last? (select (has_key texts name_key (some source)) datasets)

-- Restricted to one volume, only a chain that lies on it as a whole is chosen.
abbrev pub fits_media : Option String → List RunEntry → Bool
fits_media none streams = true
fits_media (some media) streams =
    not (any (λ b. not (text_eq (option_or_none b.media_fs_uuid) (some media))) streams)

abbrev pub choice_of : Selection → String → Option String → List RunEntry → Option Choice
choice_of sel pool media streams =
    if not (is_empty streams) && fits_media media streams
    then some record {
      source = sel.source_dataset;
      target = pool <> ("/" <> leaf_of sel.source_dataset);
      chain = streams;
    }
    else none

abbrev pub choose_into :
    Selection → Option String → Option String → Option DatasetEntry → Option Choice
choose_into sel media (some pool) (some d) = choice_of sel pool media (chain d.backups)
choose_into sel media none d = none
choose_into sel media (some pool) none = none

unfoldable pub choose : List DatasetEntry → Option String → Selection → Option Choice
unfolding chain leaf_of
choose datasets media sel =
    if sel.enabled
    then choose_into sel media (option_or_none sel.target_pool)
        (by_name sel.source_dataset datasets)
    else none

abbrev pub given {ℓ} : {A : Type ℓ} → Option A → List A → List A
given none rest = rest
given (some x) rest = x ∷ rest

abbrev pub choices : List DatasetEntry → Option String → List Selection → List Choice
choices datasets media [] = []
choices datasets media (sel ∷ sels) =
    given (choose datasets media sel) (choices datasets media sels)

abbrev pub depth : Choice → ℕ
depth c = count_code b'/' c.source

abbrev pub shallow_first : Choice → Choice → Bool
shallow_first c d = leb (depth c) (depth d)

unfoldable pub chosen_datasets : Manifest → List Selection → Option String → List Choice
unfolding choose
chosen_datasets manifest selections media_fs_uuid =
    sort shallow_first (choices manifest.datasets media_fs_uuid selections)
