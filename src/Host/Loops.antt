-- ===== src/Host/Loops.antt =====
-- Loops whose rounds each leave one event.
use stir_main.Base.{◌≡◌, refl, List, [], ◌∷◌}
use stir_main.Host.{Host, Trace, Event}
use stir_main.Host.Exec.{Exec, ok, for_each, ◌>>=◌}

-- The history after an event for each element, in order.
abbrev pub logged : {A : Type 0} → (A → Event) → List A → Trace → Trace
logged event [] t = t
logged event (x ∷ xs) t = logged event xs (event x ∷ t)

pub for_each-logged :
    {A : Type 0} (event : A → Event) (body : A → Exec Unit) (h : Host) (xs : List A) (t : Trace)
    → ((x : A) (u : Trace) → body x h u ≡ (ok tt, event x ∷ u))
    → for_each xs body h t ≡ (ok tt, logged event xs t)
unfolding for_each ◌>>=◌
for_each-logged event body h [] t each = refl
for_each-logged event body h (x ∷ xs) t each =
    rw each (for_each-logged event body h xs (event x ∷ t) each)
