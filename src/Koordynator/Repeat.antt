-- ===== src/Koordynator/Repeat.antt =====
-- `przetworz_zlecenie` of crates/simon-cli/src/coord.rs: that an authorisation is accepted once, and what
-- the coordinator does not check of an order.
use text.Mathlib.Text.{get?, is_char_boundary}
use Prim.Native.String.{len}
use simon.Koordynator.Steps.{Zdarzenie, przebieg, przebieg-Member}
use simon.Prelude.{
  ℕ, ◌≡◌, inl, inr, refl, sym, ◌∙◌, String, Result, ok, err, Bool-cases, any_iff, subst, ◌≤◌, arith,
  ap,
}
use simon.Prelude.Text.{str_eq, eq_iff}
use simon.Prelude.Dict.{Member}
use simon.Kodowanie.{Biblioteki, SimonError, receipt_mismatch}
use simon.Crypto.{Keypair}
use simon.Klient.Zlecenie.{
  Format, JobOrder, Zuzyte, zweryfikuj_autoryzacje, zajmij, zawiera_tekst, zgodna_z,
}
use simon.Klient.Authorisation.{zweryfikuj_autoryzacje_iff}
use simon.Klient.Wyscig.{OrderAccepted}
use simon.Koordynator.{
  Stan, przyjete, odmowa, panika, powtorka_autoryzacji, job_id_zlecenia, przetworz_zlecenie, List,
  len, false, none, min, Option, some, str_append,
}
use simon.Koordynator.Orders.{przetworz_zlecenie_lem}

zajmij-jest : (z : Zuzyte) (d : String) → Member d z → (e : SimonError) × (zajmij z d ≡ err e)
unfolding zajmij
zajmij-jest z d m =
    let q = (any_iff (λ y. d ≡ y) (str_eq d) (λ y. eq_iff d y) z).1 m in
    (receipt_mismatch "M0.4b: autoryzacja już zużyta (powtórka tego samego podpisu)", rw q)

job_id_zlecenia-none :
    (id : String) → 16 ≤ len id → is_char_boundary id 16 ≡ false → job_id_zlecenia id ≡ none
unfolding job_id_zlecenia
job_id_zlecenia-none id l c =
    let m : min 16 (len id) ≡ 16 = omega arith in
    let g : get? id 0 16 ≡ none = elim (Bool-cases (is_char_boundary id 0)) [
      | inl e ↦ rw (e, c) refl
      | inr e ↦ rw e refl
    ] in
    ap
      (λ (o : Option String).
        let j : Option String = elim o [ none ↦ none | some s ↦ some (str_append "job-" s) ] in j)
      (subst (λ x. get? id 0 x ≡ none) (sym m) g)

module _ (b : Biblioteki) (fmt : Format) where
  powtorka :
      (klucz : Keypair) (s : Stan) (o : JobOrder) (t : ℕ) (d : String)
      → zweryfikuj_autoryzacje b fmt o t ≡ ok d
      → Member d s.zuzyte
      → (e : SimonError) × (przetworz_zlecenie b fmt klucz s o t
          ≡ (s, odmowa (powtorka_autoryzacji e)))
  unfolding przetworz_zlecenie
  powtorka klucz s o t d v m =
      let (e, f) = zajmij-jest s.zuzyte d m in (e, rw (v, przetworz_zlecenie, f))

  -- An authorisation pays for one order: after an accepted order, and any registrations, results and orders
  -- that the coordinator handles then, every order that passes the gate under the same digest, the same one
  -- again included, is refused as a repetition and changes nothing.
  pub przetworz_zlecenie_raz :
      (klucz : Keypair) (s s' : Stan) (o o' : JobOrder) (t t' : ℕ) (p : OrderAccepted)
      (node : String) (ctx : ℕ) (d : String) (zs : List Zdarzenie)
      → przetworz_zlecenie b fmt klucz s o t ≡ (s', przyjete p node ctx)
      → zweryfikuj_autoryzacje b fmt o t ≡ ok d
      → zweryfikuj_autoryzacje b fmt o' t' ≡ ok d
      → (e : SimonError) × (przetworz_zlecenie b fmt klucz (przebieg b fmt klucz s' zs) o' t'
          ≡ (przebieg b fmt klucz s' zs, odmowa (powtorka_autoryzacji e)))
  przetworz_zlecenie_raz klucz s s' o o' t t' p node ctx d zs h v v' =
      let (_, _, (d0, a, _, q), _) = przetworz_zlecenie_lem b fmt klucz s s' o t p node ctx h in
      let v0 = (zweryfikuj_autoryzacje_iff b fmt o t d0).1 a in
      let r : d ≡ d0 = ok_eq (sym v ∙ v0) in
      let m : Member d s'.zuzyte = subst (λ z. Member d z) (sym q) (inl r) in
      powtorka klucz (przebieg b fmt klucz s' zs) o' t' d v' (przebieg-Member b fmt klucz s' zs d m)
    where
      ok_eq : {x y : String} → Path (Result SimonError String) (ok x) (ok y) → x ≡ y
      ok_eq h = cc

  -- The gate does not look at the order's id, and nothing after it compares the id with the order: the
  -- same authorisation passes under any id.
  pub order_id_bez_bramki :
      (o : JobOrder) (teraz : ℕ) (id : String)
      → zweryfikuj_autoryzacje b fmt (record o { order_id = id }) teraz
        ≡ zweryfikuj_autoryzacje b fmt o teraz
  unfolding zweryfikuj_autoryzacje zgodna_z
  order_id_bez_bramki o teraz id = refl

  -- A client can stop the coordinator: an order that passes the gate, with an authorisation not used
  -- yet, makes it panic when its id, of 16 bytes or more, is one whose first 16 bytes end inside a
  -- character.
  pub order_id_panika :
      (klucz : Keypair) (s : Stan) (o : JobOrder) (teraz : ℕ) (d id : String)
      → zweryfikuj_autoryzacje b fmt o teraz ≡ ok d
      → ¬ Member d s.zuzyte
      → 16 ≤ len id
      → is_char_boundary id 16 ≡ false
      → (przetworz_zlecenie b fmt klucz s (record o { order_id = id }) teraz).1 ≡ panika
  unfolding przetworz_zlecenie zajmij
  order_id_panika klucz s o teraz d id v n l c =
      let o' = record o { order_id = id } in
      let v' : zweryfikuj_autoryzacje b fmt o' teraz ≡ ok d = order_id_bez_bramki o teraz id ∙ v in
      elim (Bool-cases (zawiera_tekst s.zuzyte d)) [
        | inl e ↦ absurd (n ((any_iff (λ y. d ≡ y) (str_eq d) (λ y. eq_iff d y) s.zuzyte).0 e))
        | inr e ↦ rw (v', przetworz_zlecenie, e) (rw (job_id_zlecenia-none id l c) refl)
      ]
