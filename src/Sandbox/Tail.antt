-- ===== src/Sandbox/Tail.antt =====
-- What the collector of a command's output holds, after any chunks.
use deep_agent_cli.Prelude.{
  length-append, drop, Bool, ℕ, zero, suc, ◌+◌, ◌-◌, ◌≤◌, ◌<◌, String, ◌≡◌, refl, sym, ap, ◌∙◌,
  true, false, some, List, [], ◌∷◌, ◌++◌, arith, ltb, ◌==◌, nat_comparable, text_comparable,
  if◌then◌else◌, length,
}
use mathlib.Core.List.{append_assoc}
use deep_agent_cli.Sandbox.Output.{
  tail_snapshot, merged, emit_output, keep_tail, show_tail, push_accepted, emit_if_any,
  is_continuation, Codec, OutputStream, Collector, bound_tail, drop_partial_character_head,
  keep_last,
}

-- The bytes at the end of what came.
abbrev pub IsTail : List ℕ → List ℕ → Type 0
IsTail tail bytes = (before : List ℕ) × (bytes ≡ before ++ tail)

IsTail-drop : (n : ℕ) (bytes : List ℕ) → IsTail (drop n bytes) bytes
IsTail-drop zero bytes = ([], refl)
IsTail-drop (suc n) [] = ([], refl)
IsTail-drop (suc n) (b ∷ bytes) =
    let rest = IsTail-drop n bytes in (b ∷ rest.0, ap (λ l. b ∷ l) rest.1)

IsTail-trans : (a b c : List ℕ) → IsTail a b → IsTail b c → IsTail a c
IsTail-trans a b c (x, e) (y, f) = (y ++ x, f ∙ ap (λ l. y ++ l) e ∙ sym (append_assoc y x a))

IsTail-append : (a b raw : List ℕ) → IsTail a b → IsTail (a ++ raw) (b ++ raw)
IsTail-append a b raw (x, e) = (x, ap (λ l. l ++ raw) e ∙ append_assoc x a raw)

IsTail-keep_last : (n : ℕ) (bytes : List ℕ) → IsTail (keep_last n bytes) bytes
IsTail-keep_last zero bytes = ([], refl)
IsTail-keep_last (suc n) bytes = IsTail-drop (length bytes - suc n) bytes

either-IsTail :
    (t : Bool) (a b c : List ℕ) → IsTail a c → IsTail b c → IsTail (if t then a else b) c
either-IsTail true a b c i j = i
either-IsTail false a b c i j = j

IsTail-drop_partial_character_head :
    (bytes : List ℕ) → IsTail (drop_partial_character_head bytes) bytes
unfolding drop_partial_character_head
IsTail-drop_partial_character_head [] = ([], refl)
IsTail-drop_partial_character_head (b ∷ bytes) =
    let rest = IsTail-drop_partial_character_head bytes in
    either-IsTail (is_continuation b) _ (b ∷ bytes) (b ∷ bytes) (b ∷ rest.0, ap (λ l. b ∷ l) rest.1)
      ([], refl)

IsTail-bound_tail : (n : ℕ) (bytes : List ℕ) → IsTail (bound_tail n bytes) bytes
IsTail-bound_tail n bytes =
    either-IsTail (ltb n (length bytes)) (drop_partial_character_head (keep_last n bytes)) bytes
      bytes
      (IsTail-trans (drop_partial_character_head (keep_last n bytes)) (keep_last n bytes) bytes
        (IsTail-drop_partial_character_head (keep_last n bytes)) (IsTail-keep_last n bytes))
      ([], refl)

length-drop : (n : ℕ) (bytes : List ℕ) → length (drop n bytes) ≡ length bytes - n
length-drop zero bytes = omega arith
length-drop (suc n) [] = omega arith
length-drop (suc n) (b ∷ bytes) = omega (arith, length-drop n bytes)

length-IsTail : (a b : List ℕ) → IsTail a b → length a ≤ length b
length-IsTail a b (x, e) = omega (arith, ap length e, length-append x a)

length-keep_last : (n : ℕ) (bytes : List ℕ) → 0 < n → length (keep_last n bytes) ≤ n
length-keep_last zero bytes p = absurd (omega (arith, p))
length-keep_last (suc n) bytes p = omega (arith, length-drop (length bytes - suc n) bytes)

length-bound_tail : (n : ℕ) (bytes : List ℕ) → 0 < n → length (bound_tail n bytes) ≤ n
length-bound_tail n bytes p = in_case (ltb n (length bytes)) refl
  where
    in_case :
        (t : Bool)
        → ltb n (length bytes) ≡ t
        → length (if t then drop_partial_character_head (keep_last n bytes) else bytes) ≤ n
    in_case true e =
        let k = keep_last n bytes in
        omega (
          arith,
          length-IsTail (drop_partial_character_head k) k (IsTail-drop_partial_character_head k),
          length-keep_last n bytes p,
        )
    in_case false e = ground (arith, e)

bound_tail-whole :
    (n : ℕ) (bytes : List ℕ) → ltb n (length bytes) ≡ false → bound_tail n bytes ≡ bytes
bound_tail-whole n bytes e =
    ap (λ t. if t then drop_partial_character_head (keep_last n bytes) else bytes) e

module _ {D : Type 0} where
  -- The state after the bytes `received`: how much came, what is left of it in memory, whether that
  -- is all, and that a log that is open has everything.
  pub record IsKept (received : List ℕ) (c : Collector D) : Type 0 where
    pub counted : c.total_bytes ≡ length received
    pub recent : IsTail c.tail_bytes received
    pub bounded : 0 < c.max_output_bytes → length c.tail_bytes ≤ c.max_output_bytes
    pub marked : c.truncated ≡ ltb c.max_output_bytes (length received)
    pub whole : c.truncated ≡ false → c.tail_bytes ≡ received
    pub logged : c.log_fd ≡ true → c.log ≡ some received
    pub unlogged : c.truncated ≡ false → c.log_fd ≡ false

  -- The log is ahead of the memory by one chunk.
  pub record IsSaved (received raw : List ℕ) (c : Collector D) : Type 0 where
    pub counted : c.total_bytes ≡ length received
    pub recent : IsTail c.tail_bytes received
    pub marked : c.truncated ≡ ltb c.max_output_bytes (length received + length raw)
    pub whole : c.truncated ≡ false → c.tail_bytes ≡ received
    pub logged : c.log_fd ≡ true → c.log ≡ some (received ++ raw)
    pub unlogged : c.truncated ≡ false → c.log_fd ≡ false

  -- What is emitted and decoded changes nothing else.
  pub emit_if_any-IsKept :
      (received : List ℕ) (stream : OutputStream) (text : String) (c : Collector D)
      → IsKept received c
      → IsKept received (emit_if_any stream text c)
  emit_if_any-IsKept received stream text c k = in_case (text == "")
    where
      in_case : (t : Bool) → IsKept received (if t then c else emit_output stream text c)
      in_case true = k
      in_case false = record {
        counted = k.counted;
        recent = k.recent;
        bounded = k.bounded;
        marked = k.marked;
        whole = k.whole;
        logged = k.logged;
        unlogged = k.unlogged;
      }

  pub push_accepted-IsKept :
      (codec : Codec D) (received accepted : List ℕ) (c : Collector D)
      → IsKept received c
      → IsKept received (push_accepted codec accepted c)
  push_accepted-IsKept codec received [] c k = k
  push_accepted-IsKept codec received (b ∷ accepted) c k =
      let next = codec.decode c.decoder (b ∷ accepted) in
      emit_if_any-IsKept received merged next.0 (record c { decoder = next.1 })
        (record {
          counted = k.counted;
          recent = k.recent;
          bounded = k.bounded;
          marked = k.marked;
          whole = k.whole;
          logged = k.logged;
          unlogged = k.unlogged;
        })

  pub show_tail-IsKept :
      (codec : Codec D) (received : List ℕ) (c : Collector D)
      → IsKept received c
      → IsKept received (show_tail codec c)
  show_tail-IsKept codec received c k = in_case c.truncated
    where
      in_case :
          (t : Bool)
          → IsKept received
              (if t then emit_output tail_snapshot (codec.snapshot c.tail_bytes) c else c)
      in_case false = k
      in_case true = record {
        counted = k.counted;
        recent = k.recent;
        bounded = k.bounded;
        marked = k.marked;
        whole = k.whole;
        logged = k.logged;
        unlogged = k.unlogged;
      }

  pub keep_tail-IsKept :
      (received raw : List ℕ) (c : Collector D)
      → IsSaved received raw c
      → IsKept (received ++ raw) (keep_tail raw c)
  keep_tail-IsKept received raw c s = record {
    counted = omega (arith, s.counted, length-append received raw);
    recent =
        IsTail-trans (bound_tail c.max_output_bytes (c.tail_bytes ++ raw)) (c.tail_bytes ++ raw)
          (received ++ raw) (IsTail-bound_tail c.max_output_bytes (c.tail_bytes ++ raw))
          (IsTail-append c.tail_bytes received raw s.recent);
    bounded = λ p. length-bound_tail c.max_output_bytes (c.tail_bytes ++ raw) p;
    marked = s.marked ∙ ap (ltb c.max_output_bytes) (sym (length-append received raw));
    whole = λ e.
        let same = ap (λ l. l ++ raw) (s.whole e) in
        bound_tail-whole c.max_output_bytes (c.tail_bytes ++ raw) (
          ap (λ l. ltb c.max_output_bytes (length l)) same
          ∙ ap (ltb c.max_output_bytes) (length-append received raw)
          ∙ sym s.marked
          ∙ e)
        ∙ same;
    logged = s.logged;
    unlogged = s.unlogged;
  }
