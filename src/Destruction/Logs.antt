-- ===== src/Destruction/Logs.antt =====
-- What a step of a destruction adds to the log.
use nazman.Prelude.{
  ◌≡◌, refl, sym, ap, ◌∙◌, String, Bool, true, false, Option, none, some, List, [], ◌∷◌, ◌++◌, map,
  Result, ok, continue_ind, ◌>>=◌,
}
use nazman.Destruction.{
  Error, Effect, Host, Site, Act, unmounted, busy, outcome, runs, unmount_each,
}

pub append_assoc : (xs ys zs : List Effect) → (xs ++ ys) ++ zs ≡ xs ++ (ys ++ zs)
append_assoc [] ys zs = refl
append_assoc (x ∷ xs) ys zs = ap (λ t. x ∷ t) (append_assoc xs ys zs)

pub append_nil : (xs : List Effect) → xs ++ [] ≡ xs
append_nil [] = refl
append_nil (x ∷ xs) = ap (λ t. x ∷ t) (append_nil xs)

-- A call that only adds to the log: the table of pools stays, and if it returns the log has grown
-- by the given effects.
pub record Logs {W A : Type 0} (s : Site W) (es : List Effect) (r : Result Error A × Site W)
    : Type 0 where
  pub same : r.1.pools ≡ s.pools
  pub grown : (a : A) → r.0 ≡ ok a → r.1.log ≡ s.log ++ es

module _ {W : Type 0} (host : Host W) where
  pub Logs-outcome :
      (e : Effect) (failed : Error) (x : Option Bool × W) (s : Site W)
      → Logs s (e ∷ []) (outcome host e failed x s)
  Logs-outcome e failed (none, w) s = record { same = refl; grown = λ a h. absurd (cc) }
  Logs-outcome e failed (some false, w) s = record { same = refl; grown = λ a h. absurd (cc) }
  Logs-outcome e failed (some true, w) s = record { same = refl; grown = λ a h. refl }

  pub Logs-bind :
      {A B : Type 0} (m : Act W A) (f : A → Act W B) (s : Site W) (es es' : List Effect)
      → Logs s es (m s)
      → ((a : A) (s' : Site W) → Logs s' es' (f a s'))
      → Logs s (es ++ es') ((m >>= f) s)
  unfolding ◌>>=◌
  Logs-bind m f s es es' first rest =
      continue_ind (Logs s (es ++ es')) (m s).0 f (m s).1
        (λ e _. record { same = first.same; grown = λ a h. absurd (cc) })
        (λ a went.
          let later = rest a (m s).1 in
          record {
            same = later.same ∙ first.same;
            grown = λ b h.
                later.grown b h
                ∙ ap (λ l. l ++ es') (first.grown a went)
                ∙ append_assoc s.log es es';
          })

  pub Logs-unmount_each :
      (names : List String) (s : Site W) → Logs s (map unmounted names) (unmount_each host names s)
  unfolding unmount_each
  Logs-unmount_each [] s = record { same = refl; grown = λ a h. sym (append_nil s.log) }
  Logs-unmount_each (ds ∷ rest) s =
      Logs-bind (runs host (unmounted ds) (busy ds) (host.unmount ds)) (λ _. unmount_each host rest)
        s (unmounted ds ∷ []) (map unmounted rest)
        (Logs-outcome (unmounted ds) (busy ds) (host.unmount ds s.world) s)
        (λ _ s'. Logs-unmount_each rest s')
