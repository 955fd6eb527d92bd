-- ===== src/Alerts/Samples.antt =====
-- Alerts of a pool that is degraded, with a clock that each post moves on by a second.
use nazman.Prelude.{ℕ, ◌+◌, pos, Bool, true, false, none, ok, length, [], ◌≡◌, refl, arith}
use nazman.Notifications.Ring.{created}
use nazman.Alerts.{Outside, Settings, Manager, notify}
use nazman.Alerts.Cooldown.{at_once, then_notify, then_wait, notify_once_per_cooldown}

abbrev telegram : Outside ℕ
telegram = record {
  monotonic = λ t. t;
  post = λ token chat text t. (ok tt, t + 1);
  stores = λ t. true;
  journal_db = λ t. record {
    now = t;
    configured_size = pos 500;
    configured_days = pos 90;
    opens = true;
    fails = false;
  };
}

abbrev hourly : Settings
hourly = record {
  alerts_enabled = true;
  telegram_bot_token = "token";
  telegram_chat_id = "chat";
  alert_cooldown_minutes = pos 60;
}

abbrev quiet : Manager ℕ
quiet = record {
  last_sent = λ key. none;
  alert_log = [];
  journal = created 500 (pos 90);
  world = 100;
}

abbrev degraded : Manager ℕ → Bool × Manager ℕ
degraded m = notify telegram hourly "pool:tank:state" "Pool tank is DEGRADED" "error" false m

abbrev at_half : Manager ℕ
at_half = record (degraded quiet).1 { world = 1900 }

abbrev other : Manager ℕ
other = (notify telegram hourly "pool:tank:scan" "errors" "error" false at_half).1

-- after an hour the same event is delivered again
after_an_hour : (degraded (record other { world = 3701 })).0 ≡ true
unfolding notify
after_an_hour = refl

logged : length other.alert_log ≡ 2
unfolding notify
logged = refl

notify_once_per_cooldown_example : degraded other ≡ (false, other)
unfolding notify
notify_once_per_cooldown_example =
    notify_once_per_cooldown telegram hourly (λ token chat text t. omega arith) "pool:tank:state"
      "Pool tank is DEGRADED" "error" false quiet other refl
      (then_notify "pool:tank:scan" "errors" "error" false
        (then_wait 1900 (at_once (degraded quiet).1) (omega arith)))
      (omega arith) "Pool tank is DEGRADED" "error"
