-- ===== src/Inference/Sessions/Conduct.antt =====
-- What the callers of app/asr_inference.py keep to when they name a session.
use model_test.Prelude.{◌+◌, ◌≡◌, List, [], ◌∷◌, false, Text}
use model_test.Inference.State.{Settings, Coordinator, is_in}
use model_test.Inference.Machine.{Step, creates, operates, chunks, aborts, cleans_up, step}
use model_test.Inference.Ownership.{holding, reserving, plain, count}

-- A caller makes up an identifier that no session or job has, and uses it when its creation is over.
abbrev pub IsFresh : Text → Coordinator → Type 0
IsFresh t s =
    (count (holding t) s + (count (reserving t) s + count (plain t) s) ≡ 0)
    × (is_in t s.active_sessions ≡ false)

abbrev pub IsCreated : Text → Coordinator → Type 0
IsCreated t s = count (reserving t) s + count (plain t) s ≡ 0

abbrev pub Allowed : Coordinator → Step → Type 0
Allowed s (creates kind language now timeout t) = IsFresh t s
Allowed s (operates operation now timeout t audio) = IsCreated t s
Allowed s (chunks path language now timeout t audio) = IsCreated t s
Allowed s (aborts now timeout t) = IsCreated t s
Allowed s (cleans_up now timeout t) = IsCreated t s
Allowed s _ = Unit

abbrev pub AllowedRun : Settings → Coordinator → List Step → Type 0
AllowedRun c s [] = Unit
AllowedRun c s (e ∷ es) = Allowed s e × AllowedRun c (step c s e) es
