-- ===== src/M3.antt =====
-- crates/simon-core/src/m3.rs: the audit of an execution, by the rank of the node's tokens in the verifier's
-- distribution, and what is decided from it. Floating point is the parameter `Float`.
pub mod Verdict
pub mod Decision
mod Tests
use simon.Prelude.{
  ℕ, suc, ◌+◌, Bool, true, false, not, ◌&&◌, ◌||◌, List, [], ◌∷◌, String, Option, none, some,
  Result, ok, err, ◌>>=◌, ◌>>◌, guard, map_err, if◌then◌else◌, leb, ltb, ◌==◌, length, any, map,
  is_empty,
}
use simon.Prelude.Float.{Float}
use simon.Prelude.Sort.{sort_by}
use simon.Prelude.Int.{pos}
use simon.Kodowanie.{
  Dokument, Elementy, Biblioteki, null, bool, number, float, text, seq, object, struct, nil, cons,
  koniec, pole, get, liczby, SimonError, receipt_mismatch, serde, content_digest,
}
use simon.Klient.Zlecenie.{Format, polacz}

abbrev pub domena_audytu : String
domena_audytu = "SIMON/AUDIT/v1"

pub data Decyzja : Type 0 where
  pass : Decyzja
  soft_fail : Decyzja
  hard_fail : Decyzja
  insufficient_evidence : Decyzja
  brak_podstaw : Decyzja

module _ (f : Float) where
  pub record Krok : Type 0 where
    pub indeks : ℕ
    pub node_token : ℕ
    pub topk : List (ℕ × f.F)

  pub record Polityka : Type 0 where
    pub k : ℕ
    pub max_margin : f.F
    pub max_poza : f.F

  pub record Werdykt : Type 0 where
    pub krokow : ℕ
    pub w_topk : ℕ
    pub poza_topk : ℕ
    pub najgorszy_rank : ℕ
    pub najgorszy_margin : f.F
    pub sredni_nll : f.F
    pub poza_lista : ℕ
    pub jest_ok : Bool
    pub powod : Option String

  pub record Audyt : Type 0 where
    pub kroki : List Krok

  pub record Progi : Type 0 where
    pub twardy_poza : f.F
    pub min_krokow : ℕ

  -- `Polityka::default`, `Progi::default`
  unfoldable pub polityka_domyslna : Polityka
  polityka_domyslna = record { k = 2; max_margin = f.literal "0.25"; max_poza = f.literal "0.02" }

  unfoldable pub progi_domyslne : Progi
  progi_domyslne = record { twardy_poza = f.literal "0.05"; min_krokow = 8 }

  -- The variables of the loop of `ocena`.
  pub record Licznik : Type 0 where
    pub w_topk : ℕ
    pub poza : ℕ
    pub najgorszy_rank : ℕ
    pub najgorszy_margin : f.F
    pub suma_nll : f.F
    pub ile_nll : ℕ
    pub poza_lista : ℕ
    pub powod : Option String

  unfoldable pub licznik_pusty : Licznik
  licznik_pusty = record {
    w_topk = 0;
    poza = 0;
    najgorszy_rank = 0;
    najgorszy_margin = f.literal "0.0";
    suma_nll = f.literal "0.0";
    ile_nll = 0;
    poza_lista = 0;
    powod = none;
  }

  -- `if powod.is_none() { powod = Some(..) }`
  abbrev pub pierwszy_powod : Option String → String → Option String
  pierwszy_powod none p = some p
  pierwszy_powod (some q) p = some q

  -- Descending by logprob; equal ones keep their order.
  unfoldable pub posortowane : List (ℕ × f.F) → List (ℕ × f.F)
  posortowane topk = sort_by (λ (a c : ℕ × f.F). f.total_le c.1 a.1) topk

  unfoldable pub niepoliczalne : List (ℕ × f.F) → Bool
  niepoliczalne topk = any (λ (p : ℕ × f.F). not (f.is_finite p.1)) topk

  -- `iter().enumerate().find(|(_, (id, _))| *id == token)`: the position, counted from `i`, and the logprob.
  unfoldable pub znajdz : ℕ → ℕ → List (ℕ × f.F) → Option (ℕ × f.F)
  znajdz token i [] = none
  znajdz token i ((id, lp) ∷ reszta) =
      if id == token then some (i, lp) else znajdz token (i + 1) reszta

  -- `match top1_lp { Some(t1) => (t1 - lp).max(0.0), None => 0.0 }`
  unfoldable pub margines : List (ℕ × f.F) → f.F → f.F
  margines [] lp = f.literal "0.0"
  margines ((id, t1) ∷ reszta) lp = f.max (f.sub t1 lp) (f.literal "0.0")

  unfoldable pub zgodny : Polityka → ℕ → f.F → Bool
  zgodny p rank margin = leb rank p.k && f.le margin p.max_margin

  module _ (fmt : Format) (p : Polityka) where
    -- What a step says of itself in a reason, before what is wrong with it.
    abbrev pub naglowek : ℕ → ℕ → String
    naglowek i indeks = polacz ("step " ∷ fmt.liczba i ∷ " (idx " ∷ fmt.liczba indeks ∷ "): " ∷ [])

    unfoldable pub krok_niepoliczalny : ℕ → Krok → Licznik → Licznik
    krok_niepoliczalny i kr l = record l {
      poza = l.poza + 1;
      poza_lista = l.poza_lista + 1;
      powod =
          pierwszy_powod l.powod
            (polacz (naglowek i kr.indeks ∷ "non-finite logprob in top-k" ∷ []));
    }

    unfoldable pub krok_trafiony : ℕ → Krok → ℕ → f.F → f.F → Licznik → Licznik
    krok_trafiony i kr rank margin lp l =
        let m : Licznik = record l {
          suma_nll = f.add l.suma_nll (f.neg lp);
          ile_nll = l.ile_nll + 1;
          najgorszy_rank = if ltb l.najgorszy_rank rank then rank else l.najgorszy_rank;
          najgorszy_margin = if f.lt l.najgorszy_margin margin then margin else l.najgorszy_margin;
        } in
        if zgodny p rank margin then record m { w_topk = l.w_topk + 1 } else record m {
          poza = l.poza + 1;
          powod = pierwszy_powod l.powod (
              polacz (
                naglowek i kr.indeks
                ∷ "rank "
                ∷ fmt.liczba rank
                ∷ " (k="
                ∷ fmt.liczba p.k
                ∷ "), margin "
                ∷ f.text4 margin
                ∷ " (max "
                ∷ f.text4 p.max_margin
                ∷ ")"
                ∷ []));
        }

    unfoldable pub krok_poza_lista : ℕ → Krok → Licznik → Licznik
    krok_poza_lista i kr l = record l {
      poza = l.poza + 1;
      poza_lista = l.poza_lista + 1;
      powod = pierwszy_powod l.powod (
          polacz (
            naglowek i kr.indeks
            ∷ "token "
            ∷ fmt.liczba kr.node_token
            ∷ " OUTSIDE top-"
            ∷ fmt.liczba p.k
            ∷ []));
    }

    -- The body of the loop, at step `i`.
    unfoldable pub krok_oceny : ℕ → Krok → Licznik → Licznik
    unfolding krok_niepoliczalny krok_trafiony krok_poza_lista
    krok_oceny i kr l =
        if niepoliczalne kr.topk
        then krok_niepoliczalny i kr l
        else (let s = posortowane kr.topk in
            elim (znajdz kr.node_token 0 s) [
              | none ↦ krok_poza_lista i kr l
              | some (rank0, lp) ↦ krok_trafiony i kr (rank0 + 1) (margines s lp) lp l
            ])

    unfoldable pub petla_oceny : ℕ → List Krok → Licznik → Licznik
    unfolding krok_oceny
    petla_oceny i [] l = l
    petla_oceny i (kr ∷ reszta) l = petla_oceny (i + 1) reszta (krok_oceny i kr l)

    -- What follows the loop.
    unfoldable pub podsumuj : List Krok → Licznik → Werdykt
    podsumuj kroki l =
        let ulamek =
          if is_empty kroki
          then f.literal "1.0"
          else f.div (f.of_nat l.poza) (f.of_nat (length kroki)) in
        let jest_ok = not (is_empty kroki) && f.le ulamek p.max_poza in
        record {
          krokow = length kroki;
          w_topk = l.w_topk;
          poza_topk = l.poza;
          najgorszy_rank = l.najgorszy_rank;
          najgorszy_margin = l.najgorszy_margin;
          sredni_nll =
              if ltb 0 l.ile_nll then f.div l.suma_nll (f.of_nat l.ile_nll) else f.literal "0.0";
          poza_lista = l.poza_lista;
          jest_ok = jest_ok;
          powod = if jest_ok then none else l.powod;
        }

    unfoldable pub ocena : List Krok → Werdykt
    unfolding petla_oceny podsumuj licznik_pusty
    ocena kroki = podsumuj kroki (petla_oceny 0 kroki licznik_pusty)

    -- `s != &Value::Bool(false)`
    unfoldable pub rozny_od_falszu : Dokument → Bool
    rozny_od_falszu (bool false) = false
    rozny_od_falszu _ = true

    -- `v.get("simulated").is_some_and(..)`
    unfoldable pub symulowany : Dokument → Bool
    unfolding rozny_od_falszu
    symulowany v = elim (get v "simulated") [ none ↦ false | some s ↦ rozny_od_falszu s ]

    -- `ocena_json`, with `serde_json::from_str` and `from_value` as arguments.
    unfoldable pub ocena_json :
        (String → Result String Dokument)
        → (Dokument → Result String Audyt)
        → String
        → Result SimonError Werdykt
    unfolding symulowany
    ocena_json from_str from_value json = do
      v ← map_err serde (from_str json)
      guard (not (symulowany v))
          (receipt_mismatch "simulated audit (verifier_loop --dry-run) is not evidence")
      a ← map_err serde (from_value v)
      ok (ocena a.kroki)

  unfoldable pub kroki_dokument : List Krok → Elementy
  kroki_dokument [] = nil
  kroki_dokument (kr ∷ reszta) =
      cons
        (seq (
          cons (number (pos kr.indeks)) (
            cons (number (pos kr.node_token))
              (cons (seq (liczby (map (λ (p : ℕ × f.F). p.0) kr.topk))) nil))))
        (kroki_dokument reszta)

  unfoldable pub odcisk_audytu : Biblioteki → List Krok → Result SimonError String
  odcisk_audytu b kroki = content_digest b (
      object
        (pole "domena" (text domena_audytu) (pole "kroki" (seq (kroki_dokument kroki)) koniec)))

  unfoldable pub decyzja : Werdykt → ℕ → Progi → Decyzja
  decyzja w receipt_level progi =
      if ltb receipt_level 1 || w.krokow == 0
      then brak_podstaw
      else if ltb w.krokow progi.min_krokow
      then insufficient_evidence
      else if w.jest_ok
      then pass
      else soft_fail
