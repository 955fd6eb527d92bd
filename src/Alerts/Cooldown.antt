-- ===== src/Alerts/Cooldown.antt =====
-- The cooldown of an event, through every later sequence of notifications and waits.
use nazman.Prelude.{
  ℕ, ◌+◌, ◌≤◌, ◌<◌, String, Bool, true, false, not, ◌||◌, Option, some, Result, ok, err, str_eq,
  strip, ◌≡◌, refl, Bool-cases, inl, inr, str_eq_self, arith,
}
use nazman.Alerts.{
  Outside, Settings, Manager, cooldown_window, within_window, sent_at, suppressed,
  send_telegram_message, deliver, record_alert, refused, settle, notify,
}

module _ {W : Type 0} (outside : Outside W) (settings : Settings) where
  -- What can happen after a state: notifications of any event, forced or not, and waits.
  pub data Later : Manager W → Manager W → Type 0 where
    at_once : (m : Manager W) → Later m m
    then_notify :
        {m m' : Manager W} (event_key message severity : String) (force : Bool)
        → Later m m'
        → Later m (notify outside settings event_key message severity force m').1
    then_wait :
        {m m' : Manager W} (w : W)
        → Later m m'
        → outside.monotonic m'.world ≤ outside.monotonic w
        → Later m (record m' { world = w })

  -- the posts do not turn the clock back
  abbrev pub IsSteady : Type 0
  IsSteady =
      (token chat text : String) (w : W)
      → outside.monotonic w ≤ outside.monotonic (outside.post token chat text w).1

  -- the last delivery of the event was at t or later
  abbrev pub Since : ℕ → String → Manager W → Type 0
  Since t key m = (u : ℕ) × (m.last_sent key ≡ some u) × (t ≤ u) × (t ≤ outside.monotonic m.world)

  deliver_steady :
      IsSteady
      → (message : String) (w : W)
      → outside.monotonic w ≤ outside.monotonic (deliver outside settings message w).1
  unfolding send_telegram_message
  deliver_steady steady message w =
      let token = strip settings.telegram_bot_token in
      let chat = strip settings.telegram_chat_id in
      elim (Bool-cases (str_eq token "" || str_eq chat "")) [
        | inl blank ↦ rw blank (omega arith)
        | inr given ↦ rw given (steady token chat message w)
      ]

  sent_at-Since :
      (t now : ℕ) (key event_key : String) (sent : String → Option ℕ)
      → t ≤ now
      → ((u : ℕ) × (sent key ≡ some u) × (t ≤ u))
      → (u : ℕ) × (sent_at event_key now sent key ≡ some u) × (t ≤ u)
  sent_at-Since t now key event_key sent h (u, at, le) = elim (Bool-cases (str_eq key event_key)) [
    | inl same ↦ (now, rw same refl, h)
    | inr other ↦ (u, rw other at, le)
  ]

  settle-Since :
      (t : ℕ) (key event_key message severity : String) (outcome : Result String Unit)
      (m : Manager W)
      → Since t key m
      → Since t key (settle outside settings event_key message severity outcome m).1
  unfolding record_alert
  settle-Since t key event_key message severity (ok done) m (u, at, le, now) =
      let (u', at', le') =
        sent_at-Since t (outside.monotonic m.world) key event_key m.last_sent now (u, at, le) in
      (u', at', le', now)
  settle-Since t key event_key message severity (err e) m since = since

  notify-Since :
      IsSteady
      → (t : ℕ) (key event_key message severity : String) (force : Bool) (m : Manager W)
      → Since t key m
      → Since t key (notify outside settings event_key message severity force m).1
  unfolding notify
  notify-Since steady t key event_key message severity force m (u, at, le, now) =
      elim (Bool-cases (refused outside settings event_key force m)) [
        | inl held ↦ rw held (u, at, le, now)
        | inr free ↦
            let later = deliver_steady steady message m.world in
            let (outcome, w) = deliver outside settings message m.world in
            rw free (
              settle-Since t key event_key message severity outcome (record m { world = w })
                (u, at, le, (omega arith)))
      ]

  settle_sent :
      (key message severity : String) (outcome : Result String Unit) (m : Manager W)
      → (settle outside settings key message severity outcome m).0 ≡ true
      → (let m' = (settle outside settings key message severity outcome m).1 in
          Since (outside.monotonic m'.world) key m')
  unfolding record_alert
  settle_sent key message severity (ok done) m sent =
      (outside.monotonic m.world, (rw (str_eq_self key) refl), (omega arith), (omega arith))
  settle_sent key message severity (err e) m sent = absurd (cc)

  notify_sent :
      (key message severity : String) (force : Bool) (m : Manager W)
      → (notify outside settings key message severity force m).0 ≡ true
      → (let m' = (notify outside settings key message severity force m).1 in
          Since (outside.monotonic m'.world) key m')
  unfolding notify
  notify_sent key message severity force m sent =
      elim (Bool-cases (refused outside settings key force m)) [
        | inl held ↦ absurd (cc)
        | inr free ↦
            let (outcome, w) = deliver outside settings message m.world in
            rw free
              (settle_sent key message severity outcome (record m { world = w }) (rw free at sent))
      ]

  Later-Since :
      IsSteady
      → (t : ℕ) (key : String) {m m' : Manager W} → Later m m'
      → Since t key m
      → Since t key m'
  Later-Since steady t key (at_once m) since = since
  Later-Since steady t key (then_notify event_key message severity force before) since =
      notify-Since steady t key event_key message severity force _
        (Later-Since steady t key before since)
  Later-Since steady t key (then_wait w before later) since =
      let (u, at, le, now) = Later-Since steady t key before since in (u, at, le, (omega arith))

  or_true : (a b c d : Bool) → d ≡ true → (a || (b || c || d)) ≡ true
  or_true a b c d h = ground arith

  within_window_lem :
      (window now u : ℕ) (last : Option ℕ)
      → last ≡ some u
      → now < u + window
      → within_window window last now ≡ true
  within_window_lem window now u last h early = rw h (ground arith)

  refused_lem :
      (key : String) (m : Manager W) (u : ℕ)
      → m.last_sent key ≡ some u
      → outside.monotonic m.world < u + cooldown_window settings.alert_cooldown_minutes
      → refused outside settings key false m ≡ true
  unfolding refused suppressed
  refused_lem key m u at early =
      or_true (str_eq key "") (not settings.alerts_enabled)
        (str_eq settings.telegram_bot_token "" || str_eq settings.telegram_chat_id "") _
        (within_window_lem (cooldown_window settings.alert_cooldown_minutes)
          (outside.monotonic m.world) u (m.last_sent key) at early)

  notify-refused :
      (key message severity : String) (force : Bool) (m : Manager W)
      → refused outside settings key force m ≡ true
      → notify outside settings key message severity force m ≡ (false, m)
  unfolding notify
  notify-refused key message severity force m held = rw held refl

  -- When notify has delivered an event, then, whatever is notified and however long is waited
  -- afterwards, each notification of the same event that is not forced and comes before the
  -- cooldown since that delivery has passed delivers nothing and changes nothing, provided that the
  -- posts do not turn the clock back.
  pub notify_once_per_cooldown :
      IsSteady
      → (key message severity : String) (force : Bool) (m m' : Manager W)
      → (notify outside settings key message severity force m).0 ≡ true
      → Later (notify outside settings key message severity force m).1 m'
      → outside.monotonic m'.world
        < outside.monotonic (notify outside settings key message severity force m).1.world
          + cooldown_window settings.alert_cooldown_minutes
      → (again severity' : String)
      → notify outside settings key again severity' false m' ≡ (false, m')
  notify_once_per_cooldown steady key message severity force m m' sent later early again severity' =
      let start = (notify outside settings key message severity force m).1 in
      let (u, at, le, now) =
        Later-Since steady (outside.monotonic start.world) key later
          (notify_sent key message severity force m sent) in
      notify-refused key again severity' false m' (refused_lem key m' u at (omega arith))
