-- ===== src/Wezel.antt =====
-- crates/simon-cli/src/node.rs: what a node does with a prompt that comes in, before it is counted. A
-- `PeerId` is its text, a semaphore the number of permits that are left, and the tasks that tokio runs
-- are the list of their requests.
pub mod Intake
pub mod Busy
pub mod Branches
pub mod Precyzja
pub mod Model
pub mod Tresc
pub mod Liczenie
mod Codec
mod Tests
use simon.Prelude.{
  ℕ, suc, ◌+◌, ◌-◌, ◌*◌, Bool, true, false, ◌&&◌, List, [], ◌∷◌, ◌++◌, String, Option, none, some,
  ok, err, if◌then◌else◌, ltb, ◌==◌, length,
}
use simon.Prelude.Text.{str_eq}
use simon.Prelude.Dict.{Dict, lookup, insert}
use simon.Prelude.Float.{Float}
use simon.Protokol.Kubelek.{Kubelek, nowy_kubelek, zezwol}
use simon.Crypto.{Keypair}
use simon.Klient.Zlecenie.{Format, polacz}
use simon.Prompt.{PromptRequest, PromptError, PromptReply, blad as odmowa}

abbrev pub kolejka_na_slot : ℕ
kolejka_na_slot = 4

abbrev pub wersja_promptu : ℕ
wersja_promptu = 1

abbrev pub pamiec_jobow : ℕ
pamiec_jobow = 4096

pub record Backend : Type 0 where
  pub model_url : String
  pub model : String
  pub runtime : String
  pub klucz : Keypair
  pub max_ctx : ℕ

unfoldable pub blad_ctx : PromptRequest → String → String → Option ℕ → Option ℕ → PromptReply
blad_ctx req kod opis realny_ctx limit_ctx = odmowa (record {
  v = 1;
  order_id = req.order_id;
  kod = kod;
  opis = opis;
  realny_ctx = realny_ctx;
  limit_ctx = limit_ctx;
})

unfoldable pub blad : PromptRequest → String → String → PromptReply
blad req kod opis = blad_ctx req kod opis none none

unfoldable pub sprawdz_wersje : Format → PromptRequest → Option PromptReply
sprawdz_wersje fmt request =
    if ltb wersja_promptu request.v
    then some (
        blad request "wersja" (
          polacz (
            "nieobsługiwana wersja formatu "
            ∷ fmt.liczba request.v
            ∷ " (node obsługuje do "
            ∷ fmt.liczba wersja_promptu
            ∷ ")"
            ∷ [])))
    else none

-- `obsluz`: the gate on the context, with what `/tokenize` said as an argument, then `policz`.
unfoldable pub obsluz :
    Format → Backend → (PromptRequest → PromptReply) → Option ℕ → PromptRequest → PromptReply
obsluz fmt b policz realny_ctx request = elim (sprawdz_wersje fmt request) [
  | some reply ↦ reply
  | none ↦
      let ctx_do_bramki : ℕ = elim realny_ctx [ some realny ↦ realny | none ↦ request.max_ctx ] in
      if ltb 0 b.max_ctx && ltb b.max_ctx ctx_do_bramki
      then blad_ctx request "ctx_ponad_limit"
          (polacz (
            "zlecenie żąda "
            ∷ fmt.liczba ctx_do_bramki
            ∷ " tokenów kontekstu, ten node ma limit "
            ∷ fmt.liczba b.max_ctx
            ∷ " (model "
            ∷ b.model
            ∷ ")"
            ∷ []))
          (some ctx_do_bramki) (some b.max_ctx)
      else policz request
]

-- A peer and a job, as they are kept against repeats
abbrev pub Slad : Type 0
Slad = String × String

abbrev pub slad_eq : Slad → Slad → Bool
slad_eq (p, j) (q, k) = str_eq p q && str_eq j k

abbrev pub byl : Slad → List Slad → Bool
byl s [] = false
byl s (x ∷ xs) = if slad_eq x s then true else byl s xs

-- `VecDeque::pop_front`
abbrev pub pop_front : List Slad → List Slad
pop_front [] = []
pop_front (x ∷ xs) = xs

unfoldable pub zapamietaj : Slad → List Slad → List Slad
zapamietaj s ostatnie =
    let o = ostatnie ++ s ∷ [] in if ltb pamiec_jobow (length o) then pop_front o else o

unfoldable pub powtorzony : PromptRequest → PromptReply
powtorzony req =
    blad req "powtorzony_job"
      "ten job_id od tego peera już był — powtórka nie jest liczona drugi raz"

module _ (f : Float) (fmt : Format) where
  -- The buckets and the remembered jobs of `uruchom`
  pub record Pamiec : Type 0 where
    pub kubelki : Dict (Kubelek f)
    pub ostatnie : List Slad

  -- `entry(peer).or_insert_with(..)`
  abbrev pub kubelek : Dict (Kubelek f) → String → f.F → ℕ → Kubelek f
  kubelek kubelki peer rate teraz = elim (lookup peer kubelki) [
    | some k ↦ k
    | none ↦ nowy_kubelek f (f.mul rate (f.literal "4.0")) rate teraz
  ]

  -- Too many buckets are thrown away together.
  abbrev pub przyciete : Dict (Kubelek f) → Dict (Kubelek f)
  przyciete kubelki = if ltb 10000 (length kubelki) then [] else kubelki

  unfoldable pub limit_peera :
      Pamiec → String → PromptRequest → f.F → ℕ → Option PromptReply × Pamiec
  limit_peera p peer req rate teraz =
      if byl (peer, req.job_id) p.ostatnie
      then (some (powtorzony req), p)
      else if f.lt (f.literal "0.0") rate
      then (let kubelki = przyciete p.kubelki in
          let (w, k) = zezwol f (kubelek kubelki peer rate teraz) teraz in
          let kubelki = insert peer k kubelki in
          elim w [
            | err _ ↦ (
              some (
                  blad req "rate_limit" (
                    polacz ("limit " ∷ f.text rate ∷ " zleceń/s od jednego peera — zwolnij" ∷ []))),
              record p { kubelki = kubelki },
            )
            | ok _ ↦ (
              none,
              record { kubelki = kubelki; ostatnie = zapamietaj (peer, req.job_id) p.ostatnie },
            )
          ])
      else (none, record p { ostatnie = zapamietaj (peer, req.job_id) p.ostatnie })

  -- What the loop of `uruchom` keeps: the memory, the permits of `przyjecia` that are left, and the
  -- requests of the tasks that hold one.
  pub record Petla : Type 0 where
    pub pamiec : Pamiec
    pub przyjecia : ℕ
    pub zadania : List PromptRequest

  unfoldable pub start : ℕ → Petla
  start max_jobs = record {
    pamiec = record { kubelki = []; ostatnie = [] };
    przyjecia = max_jobs * kolejka_na_slot;
    zadania = [];
  }

  unfoldable pub zajety : ℕ → PromptRequest → PromptReply
  zajety max_jobs request = blad request "node_zajety" (
      polacz (
        "node zajęty: "
        ∷ fmt.liczba (max_jobs * kolejka_na_slot)
        ∷ " zadań w toku lub w kolejce — spróbuj później"
        ∷ []))

  -- The arm of a request: the reply that is sent at once, or none where a task is spawned.
  unfoldable pub przyjmij_prompt :
      ℕ → f.F → Petla → String → PromptRequest → ℕ → Option PromptReply × Petla
  przyjmij_prompt max_jobs rate s peer request teraz = elim (sprawdz_wersje fmt request) [
    | some reply ↦ (some reply, s)
    | none ↦
        let (odp, pamiec) = limit_peera s.pamiec peer request rate teraz in
        elim odp [
          | some reply ↦ (some reply, record s { pamiec = pamiec })
          | none ↦
              if s.przyjecia == 0
              then (some (zajety max_jobs request), record s { pamiec = pamiec })
              else (
                none,
                record {
                  pamiec = pamiec;
                  przyjecia = s.przyjecia - 1;
                  zadania = s.zadania ++ request ∷ [];
                },
              )
        ]
  ]
