-- ===== src/Alerts.antt =====
-- nazman/managers/alert_manager.py: the notification of an alert and its cooldown, with
-- nazman/utils/telegram.py. The clock, the post to Telegram and the databases are parameters.
pub mod Cooldown
mod Samples
use nazman.Prelude.{
  ℕ, suc, ◌+◌, ◌*◌, ℤ, pos, negsuc, String, Bool, true, false, not, ◌&&◌, ◌||◌, Option, none, some,
  List, [], ◌∷◌, ◌++◌, Result, ok, err, ltb, str_eq, strip, if◌then◌else◌,
}
use nazman.Notifications.{Level, Journal, Sqlite, add as add_note}

pub record AlertLog : Type 0 where
  pub event_key : String
  pub message : String
  pub severity : Level
  pub delivered : Bool
  pub error : Option String

pub record Settings : Type 0 where
  pub alerts_enabled : Bool
  pub telegram_bot_token : String
  pub telegram_chat_id : String
  pub alert_cooldown_minutes : ℤ

-- What is outside: time.monotonic in seconds, the post of a message to the API with what it raises,
-- whether a row of alert_log can be stored, and what the journal's database answers.
pub record Outside (W : Type 0) : Type 0 where
  pub monotonic : W → ℕ
  pub post : String → String → String → W → Result String Unit × W
  pub stores : W → Bool
  pub journal_db : W → Sqlite

pub record Manager (W : Type 0) : Type 0 where
  pub last_sent : String → Option ℕ
  pub alert_log : List AlertLog
  pub journal : Journal
  pub world : W

-- a severity that is not valid counts as an error
abbrev pub valid_severity : String → Level
valid_severity severity =
    if str_eq severity "info"
    then Level.info
    else if str_eq severity "warning"
    then Level.warning
    else Level.error

-- in seconds; a negative cooldown is none
abbrev pub cooldown_window : ℤ → ℕ
cooldown_window (pos minutes) = minutes * 60
cooldown_window (negsuc n) = 0

abbrev pub within_window : ℕ → Option ℕ → ℕ → Bool
within_window window none now = false
within_window window (some last) now = ltb now (last + window)

-- `self._last_sent[event_key] = t`
abbrev pub sent_at : String → ℕ → (String → Option ℕ) → String → Option ℕ
sent_at event_key t sent key = if str_eq key event_key then some t else sent key

abbrev pub went : Result String Unit → Bool
went (ok u) = true
went (err e) = false

abbrev pub failure : Result String Unit → Option String
failure (ok u) = none
failure (err e) = some e

module _ {W : Type 0} (outside : Outside W) (settings : Settings) where
  unfoldable pub suppressed : String → Manager W → Bool
  suppressed event_key m =
      within_window (cooldown_window settings.alert_cooldown_minutes) (m.last_sent event_key)
        (outside.monotonic m.world)

  unfoldable pub send_telegram_message : String → String → String → W → Result String Unit × W
  unfolding strip
  send_telegram_message bot_token chat_id text w =
      let token = strip bot_token in
      let chat = strip chat_id in
      if str_eq token "" || str_eq chat ""
      then (err "Telegram bot token and chat id are required", w)
      else outside.post token chat text w

  abbrev pub deliver : String → W → Result String Unit × W
  deliver message w =
      send_telegram_message settings.telegram_bot_token settings.telegram_chat_id message w

  unfoldable pub record_alert :
      String → String → String → Bool → Option String → Manager W → Manager W
  record_alert event_key message severity delivered error m =
      let level = valid_severity severity in
      let row : AlertLog = record {
        event_key = event_key;
        message = message;
        severity = level;
        delivered = delivered;
        error = error;
      } in
      record m {
        alert_log = if outside.stores m.world then m.alert_log ++ row ∷ [] else m.alert_log;
        journal =
            (add_note (outside.journal_db m.world) level (some event_key) message (some "alert")
              m.journal).1;
      }

  -- the early returns of notify
  unfoldable pub refused : String → Bool → Manager W → Bool
  unfolding suppressed
  refused event_key force m =
      str_eq event_key ""
      || not force
        && (not settings.alerts_enabled
            || (str_eq settings.telegram_bot_token "" || str_eq settings.telegram_chat_id "")
            || suppressed event_key m)

  abbrev pub settle : String → String → String → Result String Unit → Manager W → Bool × Manager W
  settle event_key message severity outcome m =
      let m' = record_alert event_key message severity (went outcome) (failure outcome) m in
      if went outcome
      then (
        true,
        record m' { last_sent = sent_at event_key (outside.monotonic m'.world) m'.last_sent },
      )
      else (false, m')

  unfoldable pub notify : String → String → String → Bool → Manager W → Bool × Manager W
  unfolding refused record_alert send_telegram_message
  notify event_key message severity force m =
      if refused event_key force m
      then (false, m)
      else let (outcome, w) = deliver message m.world in
        settle event_key message severity outcome (record m { world = w })
