-- ===== src/Klient/Toy.antt =====
-- A printer of numbers, and a client with a signed order, for tests and witnesses.
use simon.Prelude.{
  ◌≡◌, refl, ℕ, zero, suc, ◌/◌, ◌%◌, ltb, if◌then◌else◌, String, [], ◌∷◌, some, none, ◌≡◌, Bool,
}
use simon.Prelude.Text.{str_append}
use simon.Crypto.{Keypair, public, to_hex}
use simon.Crypto.Toy.{biblioteki, cyfra}
use simon.Klient.Zlecenie.{Format, Autoryzacja, JobOrder, podpisz_autoryzacje}

-- Twenty digits are enough for 64 bits.
unfoldable pub dziesietnie_do : ℕ → ℕ → String
dziesietnie_do zero n = ""
dziesietnie_do (suc k) n =
    let reszta = dziesietnie_do k (n / 10) in
    let c = String.◌∷◌ (cyfra (n % 10)) String.[] in if ltb n 10 then c else str_append reszta c

abbrev pub format : Format
format = record { liczba = dziesietnie_do 20 }

dziesietnie_1204 : format.liczba 1204 ≡ "1204"
unfolding dziesietnie_do cyfra
dziesietnie_1204 = refl

abbrev pub uzytkownik : Keypair
uzytkownik = record { inner = 5 ∷ 5 ∷ [] }

abbrev pub klucz_uzytkownika : String
klucz_uzytkownika = to_hex biblioteki (public biblioteki uzytkownik)

abbrev pub autoryzacja : Autoryzacja
autoryzacja = record {
  v = 1;
  payload_digest = "pd";
  model_hash = "mistral";
  fee_think = 100;
  timeout_secs = 300;
  nonce = "n-1";
  wazne_do = 1000;
  user_pubkey = klucz_uzytkownika;
  signature = none;
}

abbrev pub nieautoryzowane : JobOrder
nieautoryzowane = record {
  order_id = "0123456789abcdef0123";
  model_hash = "mistral";
  payload_digest = "pd";
  fee_think = 100;
  burn = record {
    tx_hash = "synthetic";
    block_number = 0;
    merkle_proof = [];
    nonce = 0;
    burned_at = "0.0";
    owner_signature = "";
    jest_synthetic = Bool.true;
  };
  timeout_secs = 300;
  client_pubkey = klucz_uzytkownika;
  nonce = "n-1";
  signature = none;
  autoryzacja = none;
}

abbrev pub zlecenie : JobOrder
zlecenie = record nieautoryzowane {
  autoryzacja = some (podpisz_autoryzacje biblioteki autoryzacja uzytkownik);
}
