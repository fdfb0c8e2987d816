-- ===== src/Koordynator/Tests.antt =====
-- Tests and witnesses for crates/simon-cli/src/coord.rs, over the libraries of Crypto.Toy.
use simon.Koordynator.Steps.{Zdarzenie, przebieg}
use simon.Prelude.{refl, ◌≡◌, ◌⊎◌, ◌∷◌, String, none, some, arith}
use simon.Prelude.Dict.{Member, lookup}
use simon.Kodowanie.{SimonError}
use simon.Crypto.Toy.{biblioteki}
use simon.Node.Register.{degraded}
use simon.Node.Wynik.{JobResult, failure}
use simon.Node.Complete.{DowodPracy, rozliczony}
use simon.Node.Toy.{rejestr}
use simon.Klient.Authorisation.{Autoryzowane}
use simon.Klient.Toy.{format, zlecenie}
use simon.Koordynator.{
  odmowa, panika, powtorka_autoryzacji, obsluz_wynik, przetworz_zlecenie, job_id_zlecenia, List, [],
}
use simon.Koordynator.Toy.{koordynator, stan, odcisk, przechodzi, wynik, odpowiedz, przyjmuje}
use simon.Koordynator.Results.{OdWezla, obsluz_wynik_lem}
use simon.Koordynator.Orders.{Przydzielone, przetworz_zlecenie_lem}
use simon.Koordynator.Repeat.{przetworz_zlecenie_raz, order_id_panika}

przetworz_zlecenie_lem_example :
    (odpowiedz.order_id ≡ zlecenie.order_id)
    × (job_id_zlecenia zlecenie.order_id ≡ some odpowiedz.job_id)
    × ((d : String) × Autoryzowane biblioteki format zlecenie 1060 d
        × (¬ Member d stan.zuzyte)
        × (wynik.0.zuzyte ≡ d ∷ stan.zuzyte))
    × Przydzielone biblioteki (record stan { zuzyte = wynik.0.zuzyte }) wynik.0 odpowiedz "n1"
przetworz_zlecenie_lem_example =
    przetworz_zlecenie_lem biblioteki format koordynator stan wynik.0 zlecenie 1060 odpowiedz "n1"
      512 przyjmuje

abbrev falszywy : JobResult
falszywy = failure "job-1" "n1" "oom"

-- The order is accepted, another result comes, and the order is sent again.
abbrev potem : List Zdarzenie
potem = Zdarzenie.wynik falszywy ∷ Zdarzenie.zlecenie zlecenie 1059 ∷ []

przetworz_zlecenie_raz_example :
    (e : SimonError) × (przetworz_zlecenie biblioteki format koordynator
        (przebieg biblioteki format koordynator wynik.0 potem)
        zlecenie
        1060
      ≡ (przebieg biblioteki format koordynator wynik.0 potem, odmowa (powtorka_autoryzacji e)))
przetworz_zlecenie_raz_example =
    przetworz_zlecenie_raz biblioteki format koordynator stan wynik.0 zlecenie zlecenie 1060 1060
      odpowiedz "n1" 512 odcisk potem przyjmuje przechodzi przechodzi

-- Its 16th byte is the first of the two of its last character.
abbrev zle_id : String
zle_id = "aaaaaaaaaaaaaaaą"

order_id_panika_example :
    (przetworz_zlecenie biblioteki format koordynator stan
      (record zlecenie { order_id = zle_id })
      1060).1
    ≡ panika
order_id_panika_example =
    order_id_panika biblioteki format koordynator stan zlecenie 1060 odcisk zle_id przechodzi
      (λ m. m) (omega arith) refl

obsluz_wynik_lem_example :
    (OdWezla biblioteki rejestr falszywy
      × (lookup falszywy.job_id (obsluz_wynik biblioteki rejestr falszywy).assigned ≡ none)
      × ((DowodPracy biblioteki rejestr falszywy
            × (obsluz_wynik biblioteki rejestr falszywy ≡ rozliczony rejestr falszywy.job_id))
          ⊎ (lookup falszywy.node_id (obsluz_wynik biblioteki rejestr falszywy).states
              ≡ some degraded)))
    ⊎ ((¬ OdWezla biblioteki rejestr falszywy)
        × (obsluz_wynik biblioteki rejestr falszywy ≡ rejestr))
obsluz_wynik_lem_example = obsluz_wynik_lem biblioteki rejestr falszywy
