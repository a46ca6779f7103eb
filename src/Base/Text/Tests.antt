-- ===== src/Base/Text/Tests.antt =====
-- Runs of the text methods at texts of the kind the scripts meet.
use stir_main.Base.{◌≡◌, refl, true, some, [], ◌∷◌}
use stir_main.Base.Text.{strip, splitlines, contains, cut, split, text_leb}

stripped : strip "  a b \n" ≡ "a b"
unfolding strip
stripped = refl

lines : splitlines "ab\n\ncd\n" ≡ "ab" ∷ "" ∷ "cd" ∷ []
unfolding splitlines
lines = refl

found : contains "Up 2 minutes (unhealthy)" "healthy" ≡ true
unfolding contains
found = refl

cut_once : cut 61 "A=b=c" ≡ some ("A", "b=c")
unfolding cut
cut_once = refl

words : split " origin\tfork \n" ≡ "origin" ∷ "fork" ∷ []
unfolding split
words = refl

order : text_leb "20260101T000000Z" "20260102T000000Z" ≡ true
unfolding text_leb
order = refl
