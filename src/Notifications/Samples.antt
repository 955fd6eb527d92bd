-- ===== src/Notifications/Samples.antt =====
-- A journal of two rows that takes three notifications.
use nazman.Prelude.{ℕ, ◌≤◌, pos, Bool, true, false, none, some, length, [], ◌∷◌, map, ◌≡◌, refl}
use nazman.Notifications.{Level, Sqlite, Journal, add, mark_read, max_id, unread_count}
use nazman.Notifications.Journals.{Within}
use nazman.Notifications.Ring.{
  Reached, new, next, adding, marking, created, journal_is_circular, add-max_id,
}

abbrev at_time : ℕ → Sqlite
at_time t = record {
  now = t;
  configured_size = pos 2;
  configured_days = pos 90;
  opens = true;
  fails = false;
}

abbrev noted : ℕ → Journal → Journal
noted t j = (add (at_time t) Level.error (some "pool:tank:state") "DEGRADED" none j).1

abbrev three_notes : Journal
three_notes = noted 30 (mark_read none (at_time 25) (noted 20 (noted 10 (created 2 (pos 90)))))

newest_two : map {B = ℕ × Bool} (λ r. (r.id, r.read)) three_notes.rows ≡ (2, true) ∷ (3, false) ∷ []
unfolding add nazman.Notifications.insert_row mark_read
newest_two = refl

unread : (unread_count (at_time 40) three_notes).0 ≡ 1
unfolding add nazman.Notifications.insert_row mark_read unread_count
unread = refl

two_notes-Reached :
    Reached 2 (mark_read none (at_time 25) (noted 20 (noted 10 (created 2 (pos 90)))))
two_notes-Reached =
    next
      (next (next (new (pos 90)) (adding (at_time 10) _ _ _ _ _ refl))
        (adding (at_time 20) _ _ _ _ _ refl))
      (marking none (at_time 25) _ refl)

three_notes-Reached : Reached 2 three_notes
three_notes-Reached = next two_notes-Reached (adding (at_time 30) _ _ _ _ _ refl)

journal_is_circular_example : (length three_notes.rows ≤ 2) × Within 2 4 three_notes.rows
unfolding add nazman.Notifications.insert_row mark_read
journal_is_circular_example = journal_is_circular 2 three_notes three_notes-Reached

add-max_id_example : (max_id (at_time 40) three_notes).0 ≡ 3
unfolding add nazman.Notifications.insert_row mark_read
add-max_id_example =
    add-max_id 1 (at_time 30) (at_time 40) Level.error (some "pool:tank:state") "DEGRADED" none
      (mark_read none (at_time 25) (noted 20 (noted 10 (created 2 (pos 90))))) 3 two_notes-Reached
      refl refl refl
