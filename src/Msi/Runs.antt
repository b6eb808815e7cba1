-- ===== src/Msi/Runs.antt =====
-- Runs of the controller of
-- core/memory_subsystem/pr_l1_pr_l2_dram_directory_msi/dram_directory_cntlr.cc, from its constructor on, over any
-- sequence of messages.
use snipersimcommon.Base.{ℕ, ◌+◌, ◌≡◌, List, [], ◌∷◌, arith}
use snipersimcommon.Base.Every.{nothing, Every-replicate}
use snipersimcommon.Run.{Ensures, returns, Ensures-bind, Ensures-map}
use snipersimcommon.Msi.Slots.{Config, Slot, DirectoryCache}
use snipersimcommon.Msi.Slots
use snipersimcommon.Msi.State.{Setup, State}
use snipersimcommon.Msi.State
use snipersimcommon.Msi.Replies.{Event, from_l2_cache, from_dram, deliver, run}
use snipersimcommon.Msi.Coherent.{create_directory_entry-Coherent}
use snipersimcommon.Msi.Kept.Account.{Sound, answers, pending, account}
use snipersimcommon.Msi.Kept.Handlers.{
  asked, handle_msg_from_l2_cache-Handled, handle_msg_from_dram-Kept,
}

pub create-Sound :
    (c : Config) (total_entries : ℕ) (ptrs : List ℕ)
    → Sound (State.create (Slots.create c total_entries ptrs))
unfolding State.create Slots.create
create-Sound c total_entries ptrs = record {
  cache = record {
    slots = Every-replicate total_entries _ (create_directory_entry-Coherent c);
    replaced = nothing;
  };
  queued = λ x. nothing;
}

-- What a sequence of messages asks answers for.
abbrev asked_in : Event → ℕ → ℕ → ℕ
asked_in (from_l2_cache sender msg) core x = asked msg core x
asked_in (from_dram msg) core x = 0

unfoldable pub asked_by : List Event → ℕ → ℕ → ℕ
asked_by [] core x = 0
asked_by (event ∷ events) core x = asked_in event core x + asked_by events core x

-- What a run leads to.
pub record Served (events : List Event) (s t : State) : Type 0 where
  pub sound : Sound t
  pub even : (core x : ℕ) → account t core x ≡ account s core x + asked_by events core x

deliver_lem :
    (p : Setup) (s : State) (event : Event)
    → Sound s
    → Ensures
        (λ t.
          Sound t × ((core x : ℕ) → account t core x ≡ account s core x + asked_in event core x))
        (deliver p s event)
unfolding deliver
deliver_lem p s (from_l2_cache sender msg) v =
    Ensures-map (handle_msg_from_l2_cache-Handled p _ s sender msg v (omega arith))
      (λ t h. (h.sound, h.even))
deliver_lem p s (from_dram msg) v =
    Ensures-map (handle_msg_from_dram-Kept p _ s msg v (omega arith))
      (λ t k. (k.sound, λ core x. omega (arith, k.even core x)))

pub run-Served :
    (p : Setup) (s : State) (events : List Event)
    → Sound s
    → Ensures (Served events s) (run p s events)
unfolding run asked_by
run-Served p s [] v = returns (record { sound = v; even = λ core x. omega arith })
run-Served p s (event ∷ events) v = Ensures-bind (deliver_lem p s event v) (λ t d.
    Ensures-map (run-Served p t events d.0) (λ u r. record {
      sound = r.sound;
      even = λ core x. omega (arith, d.1 core x, r.even core x);
    }))

-- For every sequence of messages to a new controller, with as much fuel for each as its queue is long and one
-- more for a message of a cache, the fuel is enough; and if nothing aborts, then for each core and address
-- the answers that were sent and the requests that still wait are together the requests that
-- the core made for the address.
pub run-answers :
    (p : Setup) (total_entries : ℕ) (ptrs : List ℕ) (events : List Event)
    → Ensures
        (λ t.
          (core x : ℕ)
          → answers core x t.sent + pending core x (t.queues x) ≡ asked_by events core x)
        (run p (State.create (Slots.create p.directory total_entries ptrs)) events)
unfolding account State.create answers pending
run-answers p total_entries ptrs events =
    let s = State.create (Slots.create p.directory total_entries ptrs) in
    Ensures-map (run-Served p s events (create-Sound p.directory total_entries ptrs))
      (λ t r core x. omega (arith, r.even core x))
