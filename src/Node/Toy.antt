-- ===== src/Node/Toy.antt =====
-- A registry with one node and one job, for tests and witnesses.
use simon.Prelude.{List, [], ◌∷◌, some}
use simon.Prelude.Int.{pos}
use simon.Kodowanie.{null, number, text, object, pole, koniec}
use simon.Crypto.{Keypair, public}
use simon.Crypto.Toy.{biblioteki}
use simon.Node.{Registry, nowy_rejestr}
use simon.Node.Register.{RegisterMsg, Capability, nowa_rejestracja}
use simon.Node.Steps.{Operacja, rejestruj, przydziel, przebieg, Spojny}
use simon.Node.Invariant.{przebieg-Spojny}

abbrev pub klucz : Keypair
klucz = record { inner = 7 ∷ 7 ∷ 7 ∷ [] }

abbrev pub moc : Capability
moc = record {
  declared =
      object (pole "model_hash" (text "mistral") (pole "max_ctx" (number (pos 8192)) koniec));
  attested = some null;
}

abbrev pub wezel : RegisterMsg
wezel = nowa_rejestracja "n1" (public biblioteki klucz) moc

abbrev pub poczatek : List Operacja
poczatek = rejestruj wezel ∷ przydziel "job-1" "n1" ∷ []

-- One node, with one job.
abbrev pub rejestr : Registry
rejestr = przebieg biblioteki nowy_rejestr poczatek

pub rejestr-Spojny : Spojny rejestr
rejestr-Spojny = przebieg-Spojny biblioteki poczatek
