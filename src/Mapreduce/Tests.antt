-- ===== src/Mapreduce/Tests.antt =====
-- Tests and witnesses for mapreduce.rs.
use simon.Prelude.{◌≡◌, refl, List, [], ◌∷◌}
use simon.Prelude.Text.{chars}
use simon.Mapreduce.{Tekst, podziel_na_kawalki, oszacuj_tokeny, grupuj_do_budzetu}

abbrev tekst : Tekst
tekst = chars "ąćęłń abc"

podziel_tekst : podziel_na_kawalki tekst 4 ≡ chars "ąćęł" ∷ chars "ń ab" ∷ chars "c" ∷ []
unfolding podziel_na_kawalki
podziel_tekst = refl

oszacuj_pieciu_slow : oszacuj_tokeny (chars "a b c d e") ≡ 5
unfolding oszacuj_tokeny
oszacuj_pieciu_slow = refl

abbrev elementy : List Tekst
elementy = chars "aaaa" ∷ chars "bbbb" ∷ chars "cc" ∷ []

grupy_elementow :
    grupuj_do_budzetu elementy 8 ≡ (chars "aaaa" ∷ chars "bbbb" ∷ []) ∷ (chars "cc" ∷ []) ∷ []
unfolding grupuj_do_budzetu
grupy_elementow = refl
