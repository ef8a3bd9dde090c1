-- ===== src/Control/Streams.antt =====
-- RunController: the model streams of a run.
use deep_agent_cli.Prelude.{
  ℕ, Bool, true, false, not, Option, none, some, length, all, keep, ◌==◌, nat_comparable, add,
  discard, if◌then◌else◌,
}
use deep_agent_cli.Prelude.Dict.{lookup, insert, erase}
use deep_agent_cli.Control.State.{Controller, update}

abbrev pub attach : ℕ → ℕ → Controller → Controller
attach s g c = record c {
  scopes =
      update c.scopes g (record (c.scopes g) { model_streams = add s (c.scopes g).model_streams });
  stream_scopes = insert s g c.stream_scopes;
}

-- `false` when there is no active run, or when it has been cancelled.
unfoldable pub register_model_stream : ℕ → Controller → Bool × Controller
unfolding update insert
register_model_stream s c = elim c.active [
  | none ↦ (false, c)
  | some g ↦ if (c.scopes g).cancel_event then (false, c) else (true, attach s g c)
]

unfoldable pub detach : ℕ → Option ℕ → Controller → Controller
unfolding update
detach s none c = c
detach s (some g) c = record c {
  scopes =
      update c.scopes g
        (record (c.scopes g) { model_streams = discard s (c.scopes g).model_streams });
}

-- `closed s` says whether the request of the stream `s` has closed.
module _ (closed : ℕ → Bool) where
  unfoldable pub unregister_model_stream : ℕ → Controller → Controller
  unfolding detach lookup erase
  unregister_model_stream s c =
      let c' =
        detach s (lookup s c.stream_scopes)
          (record c { stream_scopes = erase s c.stream_scopes }) in
      if closed s then c' else record c' { unclosed_streams = add s c'.unclosed_streams }

  unfoldable pub unclosed_model_streams : Controller → ℕ × Controller
  unclosed_model_streams c =
      let open_streams = keep (λ s. not (closed s)) c.unclosed_streams in
      (length open_streams, record c { unclosed_streams = open_streams })

  -- The answers of the children's own waits and of the streams' waits are given; `closed` is read
  -- after them.
  unfoldable pub wait_model_streams_closed :
      (ℕ → Bool) → (ℕ → Bool) → Controller → Bool × Controller
  unfolding unclosed_model_streams
  wait_model_streams_closed child_closed stream_closed c =
      if all child_closed c.children
      then (if all stream_closed c.unclosed_streams
          then (let (n, c') = unclosed_model_streams c in (n == 0, c'))
          else (false, c))
      else (false, c)
