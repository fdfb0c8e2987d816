-- ===== src/Node/Los.antt =====
-- crates/simon-node/src/lib.rs: the draw of a node for a job, `wybierz_kandydata_vrf`.
use simon.Prelude.{
  ℕ, ◌-◌, Bool, true, List, [], ◌∷◌, String, Option, none, some, ok, err, if◌then◌else◌, leb,
  is_empty,
}
use simon.Prelude.Dict.{lookup}
use simon.Prelude.StrOrder.{str_ltb}
use simon.Kodowanie.{Dokument, seq, text, nil, cons, Biblioteki, content_digest}
use simon.Node.{Registry, kandydaci_dla_modelu}

-- `last_seen.get(cand)`: a node never seen stays.
abbrev pub swiezy : Registry → ℕ → ℕ → String → Bool
swiezy g teraz_s timeout cand = elim (lookup cand g.last_seen) [
  | none ↦ true
  | some last ↦ leb (teraz_s - last) timeout
]

unfoldable pub filtruj : (String → Bool) → List String → List String
filtruj p [] = []
filtruj p (x ∷ xs) = let reszta = filtruj p xs in if p x then x ∷ reszta else reszta

unfoldable pub swieze : Registry → ℕ → List String → List String
swieze g teraz_s kandydaci = elim g.timeout_s [
  | none ↦ kandydaci
  | some timeout ↦ filtruj (swiezy g teraz_s timeout) kandydaci
]

abbrev pub para : String → Dokument → Dokument
para nazwa d = seq (cons (text nazwa) (cons d nil))

-- The tuples `("SIMON/VRF/v1", (model_hash, job_id))` and `("SIMON/VRF-PICK/v1", (vrf_seed, cand))`.
unfoldable pub vrf_dokument : String → String → Dokument
vrf_dokument model_hash job_id =
    para "SIMON/VRF/v1" (seq (cons (text model_hash) (cons (text job_id) nil)))

unfoldable pub pick_dokument : String → String → Dokument
pick_dokument vrf_seed cand =
    para "SIMON/VRF-PICK/v1" (seq (cons (text vrf_seed) (cons (text cand) nil)))

module _ (b : Biblioteki) where
  abbrev pub lepszy : Option (String × String) → String → String → Option (String × String)
  lepszy none cand d = some (cand, d)
  lepszy (some (c, best)) cand d = if str_ltb d best then some (cand, d) else some (c, best)

  -- The loop over the candidates; a failed digest ends it with `None`.
  unfoldable pub losuj :
      String → List String → Option (String × String) → Option (Option (String × String))
  losuj vrf_seed [] najlepszy = some najlepszy
  losuj vrf_seed (cand ∷ reszta) najlepszy = elim (content_digest b (pick_dokument vrf_seed cand)) [
    | err _ ↦ none
    | ok pick_digest ↦ losuj vrf_seed reszta (lepszy najlepszy cand pick_digest)
  ]

  -- `najlepszy.map(|(node_id, _)| (node_id, vrf_seed))`
  abbrev pub z_ziarnem : String → Option (Option (String × String)) → Option (String × String)
  z_ziarnem vrf_seed (some (some (node_id, _))) = some (node_id, vrf_seed)
  z_ziarnem vrf_seed _ = none

  unfoldable pub wybierz_kandydata_vrf :
      Registry → String → ℕ → String → ℕ → Option (String × String)
  wybierz_kandydata_vrf g model_hash wymagany_ctx job_id teraz_s =
      let kandydaci = swieze g teraz_s (kandydaci_dla_modelu g model_hash wymagany_ctx) in
      if is_empty kandydaci
      then none
      else elim (content_digest b (vrf_dokument model_hash job_id)) [
        | err _ ↦ none
        | ok vrf_seed ↦ z_ziarnem vrf_seed (losuj vrf_seed kandydaci none)
      ]
