-- ===== src/Agent/Session/Laws.antt =====
-- The contract between SessionManager and its CheckpointStore: what the operations of a store do to
-- the history that it holds of each thread.
use gobot.Prelude.{◌≡◌, ◌≢◌, ◌∙◌, Option, some, true, false, List, String}
use gobot.Prelude.Int.{ℤ, ◌≤ℤ◌}
use gobot.Prelude.Results.{Err, ok, err}
use gobot.Agent.Message.{Message}
use gobot.Context.Checkpoints.{ThreadSnapshot}
use gobot.Agent.Session.{CheckpointStore}

-- The iteration and the messages that are stored for a thread.
abbrev pub Stored : Type 0
Stored = Option (ℤ × List Message)

-- The stored histories stay as they are, and the store stays sound.
abbrev pub Keeps : {S : Type 0} → (S → Type 0) → (String → S → Stored) → S → S → Type 0
Keeps IsSound view s s' = IsSound s' × ((j : String) → view j s' ≡ view j s)

-- One stored history is a new one, the others are as they were, and the store stays sound.
abbrev pub Replaced :
    {S : Type 0} → (S → Type 0) → (String → S → Stored) → String → ℤ × List Message → S → S → Type 0
Replaced IsSound view key h s s' =
    IsSound s' × (view key s' ≡ some h) × ((j : String) → j ≢ key → view j s' ≡ view j s)

module _ {S : Type 0} (IsSound : S → Type 0) (view : String → S → Stored) where
  pub Keeps-trans :
      (a b c : S) → Keeps IsSound view a b → Keeps IsSound view b c → Keeps IsSound view a c
  Keeps-trans a b c (_, h) (sound, k) = (sound, λ j. k j ∙ h j)

  pub Replaced-Keeps :
      (key : String) (h : ℤ × List Message) (a b c : S)
      → Replaced IsSound view key h a b
      → Keeps IsSound view b c
      → Replaced IsSound view key h a c
  Replaced-Keeps key h a b c (_, here, there) (sound, k) =
      (sound, k key ∙ here, λ j ne. k j ∙ there j ne)

  pub Keeps-Replaced :
      (key : String) (h : ℤ × List Message) (a b c : S)
      → Keeps IsSound view a b
      → Replaced IsSound view key h b c
      → Replaced IsSound view key h a c
  Keeps-Replaced key h a b c (_, k) (sound, here, there) = (sound, here, λ j ne. there j ne ∙ k j)

module _ {S : Type 0} where
  pub record IsStore (store : CheckpointStore S) (IsSound : S → Type 0)
      (IsStorable : List Message → Type 0) (view : String → S → Stored) : Type 0 where
    pub load_latest :
        (key : String) (s : S) → IsSound s → Keeps IsSound view s (store.load_latest key s).1
    pub load_some :
        (key : String) (s : S) (snap : ThreadSnapshot)
        → (store.load_latest key s).0 ≡ ok (some snap)
        → view key s ≡ some (snap.iteration, snap.messages)
    pub create_thread :
        (key model : String) (s : S)
        → IsSound s
        → Keeps IsSound view s (store.create_thread key model s).1
    pub get_session_tokens :
        (key : String) (s : S) → IsSound s → Keeps IsSound view s (store.get_session_tokens key s).1
    pub update_session_tokens :
        (key : String) (tokens : ℤ) (at : Option ℤ) (s : S)
        → IsSound s
        → Keeps IsSound view s (store.update_session_tokens key tokens at s).1
    pub save_err :
        (key : String) (it : ℤ) (ms : List Message) (s : S) (e : Err)
        → IsSound s
        → (store.save_snapshot key it ms s).0 ≡ err e
        → Keeps IsSound view s (store.save_snapshot key it ms s).1
    pub save_refused :
        (key : String) (it : ℤ) (ms : List Message) (s : S)
        → IsSound s
        → (store.save_snapshot key it ms s).0 ≡ ok false
        → Keeps IsSound view s (store.save_snapshot key it ms s).1
    pub save_other :
        (key : String) (it : ℤ) (ms : List Message) (s : S) (j : String)
        → j ≢ key
        → view j (store.save_snapshot key it ms s).1 ≡ view j s
    pub save_sound :
        (key : String) (it : ℤ) (ms : List Message) (s : S)
        → IsSound s
        → IsSound (store.save_snapshot key it ms s).1
    pub save_ok :
        (key : String) (it : ℤ) (ms : List Message) (s : S)
        → IsSound s
        → IsStorable ms
        → ((h : ℤ × List Message) → view key s ≡ some h → h.0 ≤ℤ it)
        → (store.save_snapshot key it ms s).0 ≡ ok true
        → view key (store.save_snapshot key it ms s).1 ≡ some (it, ms)
