-- ===== src/Prompt.antt =====
-- crates/simon-harness/src/request_response.rs: what a client sends to a node, and what comes back.
use simon.Prelude.{ℕ, Bool, List, String, Option}

pub record PromptRequest : Type 0 where
  pub v : ℕ
  pub order_id : String
  pub job_id : String
  pub model_hash : String
  pub prompt : String
  pub max_tokens : ℕ
  pub max_ctx : ℕ
  pub nonce : String
  pub chat : Bool

pub record PromptResponse : Type 0 where
  pub v : ℕ
  pub order_id : String
  pub job_id : String
  pub output : String
  pub receipt : String
  pub tokens_out : ℕ
  pub ttft_ms : ℕ
  pub gen_ms : ℕ
  pub tokenizer_hash : Option String
  pub prompt_token_ids : Option (List ℕ)
  pub output_token_ids : Option (List ℕ)

pub record PromptError : Type 0 where
  pub v : ℕ
  pub order_id : String
  pub kod : String
  pub opis : String
  pub realny_ctx : Option ℕ
  pub limit_ctx : Option ℕ

pub data PromptReply : Type 0 where
  wynik : PromptResponse → PromptReply
  blad : PromptError → PromptReply
