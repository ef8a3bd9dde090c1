-- ===== src/Sandbox/Output.antt =====
-- agent/sandbox.py: _OutputCollector and _effective_timeout. Bytes are numbers below 256. The codec is
-- a parameter, and so is what the file system answers.
use deep_agent_cli.Prelude.{
  take, drop, Bool, ℕ, zero, suc, ◌+◌, ◌-◌, String, ◌⊎◌, inl, inr, true, false, not, ◌&&◌, Option,
  none, some, List, [], ◌∷◌, ◌++◌, ltb, leb, ◌==◌, nat_comparable, text_comparable, if◌then◌else◌,
  is_some, length,
}
use mathlib.Core.Option

-- Python's incremental UTF-8 decoder, whose state is `D`, and its decoding of a whole text.
pub record Codec (D : Type 0) : Type 0 where
  pub decode : D → List ℕ → String × D
  pub last_text : D → String
  pub snapshot : List ℕ → String
  pub decode_all : List ℕ → String

pub data OutputStream : Type 0 where
  merged tail_snapshot : OutputStream

-- What the file system does with one chunk: the log is created under a name or an error is raised, and
-- so is one by a write, or none.
pub record Files : Type 0 where
  pub created : String ⊎ String
  pub write_error : Option String

-- `log` is the file in the workspace. A log that is discarded is unlinked.
pub record Collector (D : Type 0) : Type 0 where
  pub max_output_bytes : ℕ
  pub decoder : D
  pub tail_bytes : List ℕ
  pub total_bytes : ℕ
  pub truncated : Bool
  pub log_fd : Bool
  pub log_directory_fd : Bool
  pub log_name : Option String
  pub log_error : Option String
  pub log : Option (List ℕ)
  pub emitted : List (OutputStream × String)

-- The error is that of a timeout that is not positive.
unfoldable pub effective_timeout : Option ℕ → Option ℕ → Option (Option ℕ)
effective_timeout (some zero) cap = none
effective_timeout none cap = some cap
effective_timeout (some (suc n)) none = some (some (suc n))
effective_timeout (some (suc n)) (some cap) = some (some (if ltb cap (suc n) then cap else suc n))

abbrev pub is_continuation : ℕ → Bool
is_continuation b = leb 128 b && ltb b 192

-- `_drop_partial_character_head`
unfoldable pub drop_partial_character_head : List ℕ → List ℕ
drop_partial_character_head [] = []
drop_partial_character_head (b ∷ bytes) =
    let rest = drop_partial_character_head bytes in if is_continuation b then rest else b ∷ bytes

-- `del data[:-n]`, which deletes nothing where `n` is zero.
abbrev pub keep_last : ℕ → List ℕ → List ℕ
keep_last zero bytes = bytes
keep_last (suc n) bytes = drop (length bytes - suc n) bytes

abbrev pub bound_tail : ℕ → List ℕ → List ℕ
bound_tail n bytes =
    if ltb n (length bytes) then drop_partial_character_head (keep_last n bytes) else bytes

module _ {D : Type 0} where
  abbrev pub fresh_collector : ℕ → D → Collector D
  fresh_collector max_output_bytes decoder = record {
    max_output_bytes = max_output_bytes;
    decoder = decoder;
    tail_bytes = [];
    total_bytes = 0;
    truncated = false;
    log_fd = false;
    log_directory_fd = false;
    log_name = none;
    log_error = none;
    log = none;
    emitted = [];
  }

  unfoldable pub discard_log : String → Collector D → Collector D
  discard_log error c = record c {
    log_error = some error;
    log_fd = false;
    log = if c.log_directory_fd && is_some c.log_name then none else c.log;
  }

  abbrev pub emit_output : OutputStream → String → Collector D → Collector D
  emit_output stream text c = record c { emitted = c.emitted ++ (stream, text) ∷ [] }

  abbrev pub emit_if_any : OutputStream → String → Collector D → Collector D
  emit_if_any stream text c = if text == "" then c else emit_output stream text c

  abbrev pub push_accepted : Codec D → List ℕ → Collector D → Collector D
  push_accepted codec [] c = c
  push_accepted codec (b ∷ accepted) c =
      let (text, decoder) = codec.decode c.decoder (b ∷ accepted) in
      emit_if_any merged text (record c { decoder = decoder })

  abbrev pub write_log : Option String → List ℕ → Collector D → Collector D
  write_log none raw c = record c { log = Option.map (λ l. l ++ raw) c.log }
  write_log (some error) raw c = discard_log error c

  abbrev pub opened : String → Collector D → Collector D
  opened name c = record c {
    log_fd = true;
    log_directory_fd = true;
    log_name = some name;
    log = some [];
  }

  abbrev pub create_log : String ⊎ String → Option String → List ℕ → Collector D → Collector D
  create_log (inl error) w raw c = discard_log error c
  create_log (inr name) w raw c = write_log w (c.tail_bytes ++ raw) (opened name c)

  abbrev pub first_log : Files → List ℕ → Collector D → Collector D
  first_log f raw c =
      if not c.log_fd && not (is_some c.log_error)
      then create_log f.created f.write_error raw c
      else c

  abbrev pub save_log : Files → List ℕ → Collector D → Collector D
  save_log f raw c =
      if not c.truncated && ltb c.max_output_bytes (c.total_bytes + length raw)
      then first_log f raw (record c { truncated = true })
      else if c.log_fd
      then write_log f.write_error raw c
      else c

  abbrev pub keep_tail : List ℕ → Collector D → Collector D
  keep_tail raw c = record c {
    total_bytes = c.total_bytes + length raw;
    tail_bytes = bound_tail c.max_output_bytes (c.tail_bytes ++ raw);
  }

  abbrev pub show_tail : Codec D → Collector D → Collector D
  show_tail codec c =
      if c.truncated then emit_output tail_snapshot (codec.snapshot c.tail_bytes) c else c

  unfoldable pub append : Codec D → Files → List ℕ → Collector D → Collector D
  unfolding discard_log drop_partial_character_head
  append codec f [] c = c
  append codec f (b ∷ raw) c = show_tail codec (
      keep_tail (b ∷ raw) (
        save_log f (b ∷ raw)
          (push_accepted codec (take (c.max_output_bytes - c.total_bytes) (b ∷ raw)) c)))

  unfoldable pub flush : Codec D → Collector D → Collector D
  flush codec c = if c.truncated then c else emit_if_any merged (codec.last_text c.decoder) c

  abbrev sync_log : Option String → Collector D → Collector D
  sync_log none c = record c { log_fd = false }
  sync_log (some error) c = discard_log error c

  -- The error is that of `fsync` or of closing the file.
  unfoldable pub close : Option String → Collector D → Collector D
  unfolding discard_log
  close sync_error c = record (if c.log_fd then sync_log sync_error c else c) {
    log_directory_fd = false;
  }

  -- The chunks of a command, one after the other.
  unfoldable pub collect : Codec D → List (Files × List ℕ) → Collector D → Collector D
  unfolding append
  collect codec [] c = c
  collect codec ((f, raw) ∷ chunks) c = collect codec chunks (append codec f raw c)
