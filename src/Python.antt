-- ===== src/Python.antt =====
-- Python's own functions on texts, as parameters: `str.lower`, `str.lstrip`, `str.strip`, `s in t`,
-- and `str` of what is no text.
use deep_agent_cli.Prelude.{String, Bool, nat_comparable, text_comparable}
use deep_agent_cli.Value.{Value}

pub record Python : Type 0 where
  pub lower : String → String
  pub lstrip : String → String
  pub strip : String → String
  pub is_in : String → String → Bool
  pub to_text : Value → String
