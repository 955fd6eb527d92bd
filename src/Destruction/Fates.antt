-- ===== src/Destruction/Fates.antt =====
-- What the last part of a destruction does: the pool's datasets are unmounted, the pool destroyed
-- and its row forgotten.
use nazman.Prelude.{
  ◌≡◌, refl, sym, ap, ◌∙◌, String, Bool, true, false, not, Option, none, some, List, [], ◌∷◌, ◌++◌,
  map, select, Result, ok, err, continue, continue_ind, ◌>>=◌, ◌>>◌, str_eq,
}
use nazman.Destruction.{
  Error, Effect, Host, Site, Act, unmounted, destroyed_pool, not_destroyed, runs, mounted_names,
  unmount_names, answered, list_filesystem_names, forget,
}
use nazman.Destruction.Logs.{append_assoc, append_nil, Logs, Logs-outcome, Logs-unmount_each}

-- the pools that are left
abbrev pub left : Bool → String → List String → List String
left false pool_name pools = pools
left true pool_name pools = select (λ p. not (str_eq p pool_name)) pools

-- the end of a destruction: the log has grown and the pool's row is gone if the call returned, and
-- the table is as it was if it raised
pub record Fate {W A : Type 0} (s : Site W) (es : List Effect) (known : Bool) (pool_name : String)
    (r : Result Error A × Site W) : Type 0 where
  pub kept : (e : Error) → r.0 ≡ err e → r.1.pools ≡ s.pools
  pub grown : (a : A) → r.0 ≡ ok a → r.1.log ≡ s.log ++ es
  pub gone : (a : A) → r.0 ≡ ok a → r.1.pools ≡ left known pool_name s.pools

module _ {W : Type 0} (host : Host W) (known : Bool) (pool_name : String) where
  Fate-bind :
      {A B : Type 0} (m : Act W A) (f : A → Act W B) (s : Site W) (es es' : List Effect)
      → Logs s es (m s)
      → ((a : A) (s' : Site W) → Fate s' es' known pool_name (f a s'))
      → Fate s (es ++ es') known pool_name ((m >>= f) s)
  unfolding ◌>>=◌
  Fate-bind m f s es es' first rest =
      continue_ind (Fate s (es ++ es') known pool_name) (m s).0 f (m s).1
        (λ e _. record {
          kept = λ _ _. first.same;
          grown = λ a h. absurd (cc);
          gone = λ a h. absurd (cc);
        })
        (λ a went.
          let later = rest a (m s).1 in
          record {
            kept = λ e h. later.kept e h ∙ first.same;
            grown = λ b h.
                later.grown b h
                ∙ ap (λ l. l ++ es') (first.grown a went)
                ∙ append_assoc s.log es es';
            gone = λ b h. later.gone b h ∙ ap (left known pool_name) first.same;
          })

  Fate-forget : (s : Site W) → Fate s [] known pool_name (forget host known pool_name s)
  Fate-forget s = go known
    where
      go : (b : Bool) → Fate s [] b pool_name (forget host b pool_name s)
      go true = record {
        kept = λ e h. absurd (cc);
        grown = λ a h. sym (append_nil s.log);
        gone = λ a h. refl;
      }
      go false = record {
        kept = λ e h. refl;
        grown = λ a h. sym (append_nil s.log);
        gone = λ a h. refl;
      }

  -- what is done once the datasets below the pool are known
  abbrev pub rest_of : List String → Act W Unit
  rest_of names = do
    unmount_names host (pool_name ∷ names)
    runs host (destroyed_pool pool_name) not_destroyed (host.zpool_destroy pool_name)
    forget host known pool_name

  Fate-rest :
      (names : List String) (s : Site W)
      → Fate s
          (map unmounted (mounted_names host (pool_name ∷ names) s.world)
            ++ destroyed_pool pool_name ∷ [])
          known
          pool_name
          (rest_of names s)
  unfolding unmount_names ◌>>=◌
  Fate-rest names s =
      Fate-bind (unmount_names host (pool_name ∷ names)) _ s
        (map unmounted (mounted_names host (pool_name ∷ names) s.world))
        (destroyed_pool pool_name ∷ [])
        (Logs-unmount_each host (mounted_names host (pool_name ∷ names) s.world) s)
        λ _ s'.
          Fate-bind
            (runs host (destroyed_pool pool_name) not_destroyed (host.zpool_destroy pool_name)) _ s'
            (destroyed_pool pool_name ∷ []) []
            (Logs-outcome host (destroyed_pool pool_name) not_destroyed
              (host.zpool_destroy pool_name s'.world) s')
            (λ _ s''. Fate-forget s'')

  -- The commands of a destruction, in their order.
  pub record Ordered (log : List Effect) (pools : List String) (r : Result Error Unit × Site W)
      : Type 0 where
    pub world : W
    pub names : List String
    pub below : host.filesystems pool_name world ≡ some names
    pub logged :
        r.1.log
        ≡ log
          ++ (map unmounted (mounted_names host (pool_name ∷ names) world)
              ++ destroyed_pool pool_name ∷ [])
    pub gone : r.1.pools ≡ left known pool_name pools

  pub Ordered-listed :
      (s : Site W)
      → (((list_filesystem_names host pool_name >>= rest_of) s).0 ≡ ok tt
          → Ordered s.log s.pools ((list_filesystem_names host pool_name >>= rest_of) s))
        × ((e : Error)
            → ((list_filesystem_names host pool_name >>= rest_of) s).0 ≡ err e
            → ((list_filesystem_names host pool_name >>= rest_of) s).1.pools ≡ s.pools)
  unfolding ◌>>=◌
  Ordered-listed s = go (host.filesystems pool_name s.world) refl
    where
      go :
          (o : Option (List String))
          → host.filesystems pool_name s.world ≡ o
          → ((continue (answered host o s).0 rest_of (answered host o s).1).0 ≡ ok tt
              → Ordered s.log s.pools
                  (continue (answered host o s).0 rest_of (answered host o s).1))
            × ((e : Error)
                → (continue (answered host o s).0 rest_of (answered host o s).1).0 ≡ err e
                → (continue (answered host o s).0 rest_of (answered host o s).1).1.pools ≡ s.pools)
      go none found = (λ h. absurd (cc), λ e h. refl)
      go (some names) found =
          let fate = Fate-rest names s in
          (
            λ h. record {
              world = s.world;
              names = names;
              below = found;
              logged = fate.grown tt h;
              gone = fate.gone tt h;
            },
            fate.kept,
          )
