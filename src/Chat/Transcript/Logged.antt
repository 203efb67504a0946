-- ===== src/Chat/Transcript/Logged.antt =====
-- Changes of the transcripts that are made of the operations of server/src/chat/transcript.rs alone.
use briska_blast.Common.{◌≡◌, refl, sym, List, [], ◌∷◌, ◌++◌}
use briska_blast.Chat.Transcript.{Transcripts}
use briska_blast.Chat.Transcript.Kept.{Op, perform, perform_all}

abbrev pub Logged : Transcripts → Transcripts → Type 0
Logged t u = (ops : List Op) × (u ≡ perform_all ops t)

pub Logged-refl : (t : Transcripts) → Logged t t
unfolding perform_all
Logged-refl t = ([], refl)

pub Logged-perform : (op : Op) (t : Transcripts) → Logged t (perform op t)
unfolding perform_all
Logged-perform op t = (op ∷ [], refl)

perform_all-append :
    (a b : List Op) (t : Transcripts) → perform_all (a ++ b) t ≡ perform_all b (perform_all a t)
unfolding perform_all
perform_all-append [] b t = refl
perform_all-append (op ∷ a) b t = perform_all-append a b (perform op t)

pub Logged-trans : (t u v : Transcripts) → Logged t u → Logged u v → Logged t v
Logged-trans t u v (a, e) (b, e') = (a ++ b, rw (e', e) (sym (perform_all-append a b t)))
