-- ===== src/Pool/Events.antt =====
-- EventManager (src/Tool/Event.cpp): the callbacks that are registered under a name. A callback is a
-- number, and data is what the caller hands over.
use ancestral_property_serve.Prelude.{
  ℕ, List, [], ◌∷◌, ◌++◌, map, if◌then◌else◌, ◌≡◌, ◌∙◌, ap, refl, arith,
}
use ancestral_property_serve.Network.Address.{Text, same_text, same_text_refl}

pub record Event : Type 0 where
  pub m_name : Text
  pub m_callback : ℕ
  pub m_data : ℕ

abbrev pub register_event : Text → ℕ → ℕ → List Event → List Event
register_event name callback data_ events =
    events ++ record { m_name = name; m_callback = callback; m_data = data_ } ∷ []

-- The first event of the name is removed.
unfoldable pub unregister_event : Text → List Event → List Event
unregister_event name [] = []
unregister_event name (e ∷ es) =
    let rest = unregister_event name es in if same_text e.m_name name then es else e ∷ rest

-- The calls that are made, each with its data, and the events, which keep the data.
unfoldable pub fire_event : Text → ℕ → List Event → List (ℕ × ℕ) × List Event
fire_event name data_ [] = ([], [])
fire_event name data_ (e ∷ es) =
    let rest = fire_event name data_ es in
    if same_text e.m_name name
    then ((e.m_callback, data_) ∷ rest.0, record e { m_data = data_ } ∷ rest.1)
    else (rest.0, e ∷ rest.1)

-- The callbacks under a name, in the order of their registration.
abbrev pub callbacks : Text → List Event → List ℕ
callbacks name [] = []
callbacks name (e ∷ es) =
    let rest = callbacks name es in if same_text e.m_name name then e.m_callback ∷ rest else rest

abbrev pub without_first : List ℕ → List ℕ
without_first [] = []
without_first (c ∷ cs) = cs

fire_event-calls :
    (name : Text) (d : ℕ) (es : List Event)
    → (fire_event name d es).0 ≡ map (λ c. (c, d)) (callbacks name es)
unfolding fire_event
fire_event-calls name d [] = refl
fire_event-calls name d (e ∷ es) = ground (arith, fire_event-calls name d es)

fire_event-callbacks :
    (name other : Text) (d : ℕ) (es : List Event)
    → callbacks other (fire_event name d es).1 ≡ callbacks other es
unfolding fire_event
fire_event-callbacks name other d [] = refl
fire_event-callbacks name other d (e ∷ es) = ground (arith, fire_event-callbacks name other d es)

callbacks-append :
    (name : Text) (es fs : List Event)
    → callbacks name (es ++ fs) ≡ callbacks name es ++ callbacks name fs
callbacks-append name [] fs = refl
callbacks-append name (e ∷ es) fs = ground (arith, callbacks-append name es fs)

unregister_event-callbacks :
    (name : Text) (es : List Event)
    → callbacks name (unregister_event name es) ≡ without_first (callbacks name es)
unfolding unregister_event
unregister_event-callbacks name [] = refl
unregister_event-callbacks name (e ∷ es) = ground (arith, unregister_event-callbacks name es)

-- A name stands for the list of its callbacks. Registering adds one at the end of it and unregistering
-- removes the first; firing calls each once, in order, with the data of the call, and leaves the
-- callbacks of every name as they were.
pub events_are_lists :
    (name : Text) (callback d : ℕ) (es : List Event)
    → (callbacks name (unregister_event name es) ≡ without_first (callbacks name es))
      × ((fire_event name d es).0 ≡ map (λ c. (c, d)) (callbacks name es))
      × ((other : Text) → callbacks other (fire_event name d es).1 ≡ callbacks other es)
      × (callbacks name (register_event name callback d es) ≡ callbacks name es ++ callback ∷ [])
events_are_lists name callback d es = (
  unregister_event-callbacks name es,
  fire_event-calls name d es,
  λ other. fire_event-callbacks name other d es,
  callbacks-append name es _
      ∙ ap (λ b. callbacks name es ++ (if b then callback ∷ [] else [])) (same_text_refl name),
)
