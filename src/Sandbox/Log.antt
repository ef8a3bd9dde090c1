-- ===== src/Sandbox/Log.antt =====
-- The log of a command's output, and the collector through all of its chunks.
use deep_agent_cli.Prelude.{
  take, subst, ltb→lt, lt→ltb, Bool, ℕ, ◌+◌, ◌-◌, String, ◌≡◌, ◌⊎◌, inl, inr, refl, sym, ap, ◌∙◌,
  true, false, not, ◌&&◌, Option, none, some, List, [], ◌∷◌, ◌++◌, arith, ltb, nat_comparable,
  text_comparable, if◌then◌else◌, is_some, length,
}
use mathlib.Core.List.{append-nil, append_assoc}
use mathlib.Core.Option
use deep_agent_cli.Sandbox.Output.{
  keep_tail, push_accepted, opened, save_log, write_log, first_log, create_log, fresh_collector,
  Codec, collect, append, Collector, Files, discard_log,
}
use deep_agent_cli.Sandbox.Tail.{
  push_accepted-IsKept, keep_tail-IsKept, show_tail-IsKept, IsSaved, IsTail, IsKept,
}

true-false : true ≡ false → ⊥
true-false h = cc h

-- Once there is more than the limit, there is.
more_than :
    (t : Bool) (m n k : ℕ) → t ≡ ltb m n → (not t && ltb m (n + k)) ≡ false → t ≡ ltb m (n + k)
more_than true m n k e f = sym (lt→ltb m (n + k) (omega (arith, ltb→lt m n (sym e))))
more_than false m n k e f = sym f

not_and_true : (t u : Bool) → (not t && u) ≡ true → (t ≡ false) × (u ≡ true)
not_and_true false u e = (refl, e)
not_and_true true u e = absurd (true-false (sym e))

-- All bytes of the chunks.
unfoldable pub all_bytes : List (Files × List ℕ) → List ℕ
all_bytes [] = []
all_bytes ((f, raw) ∷ chunks) = raw ++ all_bytes chunks

module _ {D : Type 0} (received raw : List ℕ) where
  -- A log that is given up.
  discard_log-IsSaved :
      (error : String) (c : Collector D)
      → c.total_bytes ≡ length received
      → IsTail c.tail_bytes received
      → c.truncated ≡ ltb c.max_output_bytes (length received + length raw)
      → (c.truncated ≡ false → c.tail_bytes ≡ received)
      → IsSaved received raw (discard_log error c)
  unfolding discard_log
  discard_log-IsSaved error c n t m w = record {
    counted = n;
    recent = t;
    marked = m;
    whole = w;
    logged = λ e. absurd (true-false (sym e));
    unlogged = λ e. refl;
  }

  -- The first log holds the bytes in memory, which are all so far, and the chunk.
  create_log-IsSaved :
      (created : String ⊎ String) (w : Option String) (c : Collector D)
      → IsKept received c
      → c.truncated ≡ false
      → ltb c.max_output_bytes (length received + length raw) ≡ true
      → IsSaved received raw (create_log created w raw (record c { truncated = true }))
  unfolding discard_log
  create_log-IsSaved (inl error) w c k e o =
      discard_log-IsSaved error (record c { truncated = true }) k.counted k.recent (sym o)
        (λ z. absurd (true-false z))
  create_log-IsSaved (inr name) none c k e o = record {
    counted = k.counted;
    recent = k.recent;
    marked = sym o;
    whole = λ z. absurd (true-false z);
    logged = λ z. ap (λ l. some (l ++ raw)) (k.whole e);
    unlogged = λ z. absurd (true-false z);
  }
  create_log-IsSaved (inr name) (some error) c k e o =
      discard_log-IsSaved error (opened name (record c { truncated = true })) k.counted k.recent
        (sym o) (λ z. absurd (true-false z))

  first_log-IsSaved :
      (f : Files) (c : Collector D)
      → IsKept received c
      → c.truncated ≡ false
      → ltb c.max_output_bytes (length received + length raw) ≡ true
      → IsSaved received raw (first_log f raw (record c { truncated = true }))
  first_log-IsSaved f c k e o = in_case (not c.log_fd && not (is_some c.log_error))
    where
      in_case :
          (t : Bool)
          → IsSaved received raw (
              if t
              then create_log f.created f.write_error raw (record c { truncated = true })
              else record c { truncated = true })
      in_case true = create_log-IsSaved f.created f.write_error c k e o
      in_case false = record {
        counted = k.counted;
        recent = k.recent;
        marked = sym o;
        whole = λ z. absurd (true-false z);
        logged = λ z. absurd (true-false (sym z ∙ k.unlogged e));
        unlogged = λ z. absurd (true-false z);
      }

  write_log-IsSaved :
      (w : Option String) (c : Collector D)
      → IsKept received c
      → c.log_fd ≡ true
      → c.truncated ≡ ltb c.max_output_bytes (length received + length raw)
      → IsSaved received raw (write_log w raw c)
  write_log-IsSaved none c k o m = record {
    counted = k.counted;
    recent = k.recent;
    marked = m;
    whole = k.whole;
    logged = λ z. ap (Option.map (λ l. l ++ raw)) (k.logged o);
    unlogged = k.unlogged;
  }
  write_log-IsSaved (some error) c k o m = discard_log-IsSaved error c k.counted k.recent m k.whole

  save_log-IsSaved :
      (f : Files) (c : Collector D) → IsKept received c → IsSaved received raw (save_log f raw c)
  save_log-IsSaved f c k =
      in_case (not c.truncated && ltb c.max_output_bytes (c.total_bytes + length raw)) refl
    where
      total : (c.total_bytes + length raw) ≡ (length received + length raw)
      total = ap (λ n. n + length raw) k.counted

      open_case :
          (t : Bool)
          → c.log_fd ≡ t
          → c.truncated ≡ ltb c.max_output_bytes (length received + length raw)
          → IsSaved received raw (if t then write_log f.write_error raw c else c)
      open_case true o m = write_log-IsSaved f.write_error c k o m
      open_case false o m = record {
        counted = k.counted;
        recent = k.recent;
        marked = m;
        whole = k.whole;
        logged = λ z. absurd (true-false (sym z ∙ o));
        unlogged = k.unlogged;
      }

      in_case :
          (t : Bool)
          → (not c.truncated && ltb c.max_output_bytes (c.total_bytes + length raw)) ≡ t
          → IsSaved received raw (
              if t
              then first_log f raw (record c { truncated = true })
              else if c.log_fd
              then write_log f.write_error raw c
              else c)
      in_case true e =
          let both = not_and_true c.truncated _ e in
          first_log-IsSaved f c k both.0 (ap (ltb c.max_output_bytes) (sym total) ∙ both.1)
      in_case false e = open_case c.log_fd refl (
          more_than c.truncated c.max_output_bytes (length received) (length raw) k.marked
            (ap (λ n. not c.truncated && ltb c.max_output_bytes n) (sym total) ∙ e))

module _ {D : Type 0} where
  append-IsKept :
      (codec : Codec D) (f : Files) (received raw : List ℕ) (c : Collector D)
      → IsKept received c
      → IsKept (received ++ raw) (append codec f raw c)
  unfolding append
  append-IsKept codec f received [] c k = subst (λ l. IsKept l c) (sym (append-nil received)) k
  append-IsKept codec f received (b ∷ raw) c k =
      let accepted = take (c.max_output_bytes - c.total_bytes) (b ∷ raw) in
      let c1 = push_accepted codec accepted c in
      let c2 = save_log f (b ∷ raw) c1 in
      show_tail-IsKept codec (received ++ b ∷ raw) (keep_tail (b ∷ raw) c2) (
        keep_tail-IsKept received (b ∷ raw) c2 (
          save_log-IsSaved received (b ∷ raw) f c1
            (push_accepted-IsKept codec received accepted c k)))

  collect-IsKept :
      (codec : Codec D) (chunks : List (Files × List ℕ)) (received : List ℕ) (c : Collector D)
      → IsKept received c
      → IsKept (received ++ all_bytes chunks) (collect codec chunks c)
  unfolding collect all_bytes
  collect-IsKept codec [] received c k = subst (λ l. IsKept l c) (sym (append-nil received)) k
  collect-IsKept codec ((f, raw) ∷ chunks) received c k =
      subst (λ l. IsKept l (collect codec chunks (append codec f raw c)))
        (append_assoc received raw (all_bytes chunks))
        (collect-IsKept codec chunks (received ++ raw) (append codec f raw c)
          (append-IsKept codec f received raw c k))

  fresh_collector-IsKept : (n : ℕ) (decoder : D) → IsKept [] (fresh_collector n decoder)
  fresh_collector-IsKept n decoder = record {
    counted = refl;
    recent = ([], refl);
    bounded = λ p. omega arith;
    marked = ground arith;
    whole = λ e. refl;
    logged = λ e. absurd (true-false (sym e));
    unlogged = λ e. refl;
  }

  -- After any chunks of output, whatever the file system answers, the collector has counted all bytes,
  -- holds the last of them, no more than a positive limit and all where that is no more, marks the output as
  -- truncated just where there is more than the limit, and a log that is still open has all bytes.
  pub collect_fresh-IsKept :
      (codec : Codec D) (chunks : List (Files × List ℕ)) (n : ℕ) (decoder : D)
      → IsKept (all_bytes chunks) (collect codec chunks (fresh_collector n decoder))
  collect_fresh-IsKept codec chunks n decoder =
      collect-IsKept codec chunks [] (fresh_collector n decoder) (fresh_collector-IsKept n decoder)
