-- ===== src/Store/Events/History.antt =====
-- internal/server/store.go: the bounded event list against the unbounded history it stands for.
use xcloud.Prelude.{
  ℕ, zero, suc, ◌+◌, ◌-◌, ◌≤◌, ◌<◌, String, ◌≡◌, refl, true, false, inl, inr, List, [], ◌∷◌, ◌++◌,
  arith, ltb, ltb→lt, keep, length, drop, length-append, length-drop, Bool-cases,
}
use xcloud.Model.{FileVersion, Event, ServerState}
use xcloud.Store.Events.{max_events, event_of, trim_events, append_event, is_after, events_after}

abbrev pub Numbered : ℕ → List Event → Type 0
Numbered n [] = Unit
Numbered n (e ∷ es) = (e.seq ≡ n) × Numbered (n + 1) es

-- `history` holds every event since the store was made, and the store its last `max_events` ones.
pub record IsHistory (history : List Event) (s : ServerState) : Type 0 where
  pub numbered : Numbered 1 history
  pub counted : length history ≡ s.last_event_seq
  pub window : s.events ≡ drop (length history - max_events) history

module _ {A : Type 0} where
  drop-append : (k : ℕ) (xs ys : List A) → k ≤ length xs → drop k (xs ++ ys) ≡ drop k xs ++ ys
  drop-append zero xs ys h = refl
  drop-append (suc k) [] ys h = absurd (omega arith)
  drop-append (suc k) (x ∷ xs) ys h = drop-append k xs ys (omega arith)

  drop_one-drop : (k : ℕ) (xs : List A) → drop 1 (drop k xs) ≡ drop (suc k) xs
  drop_one-drop zero xs = refl
  drop_one-drop (suc k) [] = refl
  drop_one-drop (suc k) (x ∷ xs) = drop_one-drop k xs

Numbered-append :
    (n : ℕ) (es : List Event) (e : Event)
    → Numbered n es
    → e.seq ≡ n + length es
    → Numbered n (es ++ e ∷ [])
Numbered-append n [] e h p = (omega arith, tt)
Numbered-append n (d ∷ es) e h p = (h.0, Numbered-append (n + 1) es e h.1 (omega arith))

grown_short :
    (history : List Event) (e : Event)
    → length history < max_events
    → trim_events (drop (length history - max_events) history ++ e ∷ [])
      ≡ drop (length (history ++ e ∷ []) - max_events) (history ++ e ∷ [])
unfolding trim_events
grown_short history e h =
    let none_before : length history - max_events ≡ 0 = omega arith in
    let grown = length-append history (e ∷ []) in
    let none_after : length (history ++ e ∷ []) - max_events ≡ 0 = omega arith in
    let fits : ltb max_events (length (history ++ e ∷ [])) ≡ false = ground arith in
    rw (none_before, none_after, fits)

grown_long :
    (history : List Event) (e : Event)
    → max_events ≤ length history
    → trim_events (drop (length history - max_events) history ++ e ∷ [])
      ≡ drop (length (history ++ e ∷ []) - max_events) (history ++ e ∷ [])
unfolding trim_events
grown_long history e h =
    let cut = length history - max_events in
    let kept = length-drop cut history in
    let grown = length-append history (e ∷ []) in
    let full = length-append (drop cut history) (e ∷ []) in
    let over : ltb max_events (length (drop cut history ++ e ∷ [])) ≡ true = ground arith in
    let one : length (drop cut history ++ e ∷ []) - max_events ≡ 1 = omega arith in
    let next : length (history ++ e ∷ []) - max_events ≡ suc cut = omega arith in
    rw over (
      rw (one, next, ← drop-append cut history (e ∷ []) (omega arith))
        (drop_one-drop cut (history ++ e ∷ [])))

window_step :
    (history : List Event) (e : Event)
    → trim_events (drop (length history - max_events) history ++ e ∷ [])
      ≡ drop (length (history ++ e ∷ []) - max_events) (history ++ e ∷ [])
unfolding trim_events
window_step history e = elim (Bool-cases (ltb (length history) max_events)) [
  | inl short ↦ grown_short history e (ltb→lt (length history) max_events short)
  | inr long ↦ grown_long history e (ground arith)
]

-- Appending an event appends it to the history, numbered by the length of the history.
pub append_event-IsHistory :
    (version : FileVersion) (history : List Event) (s : ServerState)
    → IsHistory history s
    → IsHistory (history ++ event_of version (s.last_event_seq + 1) ∷ []) (append_event version s)
unfolding append_event
append_event-IsHistory version history s h = record {
  numbered = Numbered-append 1 history _ h.numbered (omega arith);
  counted = omega (arith, length-append history (event_of version (s.last_event_seq + 1) ∷ []));
  window = rw h.window (window_step history (event_of version (s.last_event_seq + 1)));
}

seen :
    (account_id space_id : String) (after : ℕ) (e : Event)
    → e.seq ≤ after
    → is_after account_id space_id after e ≡ false
seen a s after e h = ground arith

keep_after-drop :
    (account_id space_id : String) (after n k : ℕ) (es : List Event)
    → Numbered n es
    → n + k ≤ after + 1
    → keep (is_after account_id space_id after) (drop k es)
      ≡ keep (is_after account_id space_id after) es
unfolding keep
keep_after-drop a s after n zero es h le = refl
keep_after-drop a s after n (suc k) [] h le = refl
keep_after-drop a s after n (suc k) (e ∷ es) h le =
    rw (seen a s after e (omega arith)) (keep_after-drop a s after (n + 1) k es h.1 (omega arith))

-- A client that has seen all but the last 10000 events of the server gets from EventsAfter every
-- event of its space that it has not seen, in order, as if no event were ever dropped.
pub events_after_complete :
    (account_id space_id : String) (after : ℕ) (history : List Event) (s : ServerState)
    → IsHistory history s
    → s.last_event_seq ≤ after + max_events
    → events_after account_id space_id after s ≡ keep (is_after account_id space_id after) history
unfolding events_after
events_after_complete account_id space_id after history s h le = rw h.window (
    keep_after-drop account_id space_id after 1 (length history - max_events) history h.numbered
      (omega arith))
