-- ===== src/Msi/Kept/Account.antt =====
-- Requests and their answers, counted for a core and an address, and what a call of the controller leaves
-- as it was.
use snipersimcommon.Base.{
  ℕ, ◌+◌, ◌≡◌, ◌≢◌, refl, sym, ap, ◌∙◌, Bool, true, false, ◌&&◌, Option, List, [], ◌∷◌, ◌==◌,
  if◌then◌else◌, arith,
}
use snipersimcommon.Base.Every.{Every}
use snipersimcommon.Msi.Message.{
  MsgType, Component, ShmemMsg, ShmemReq, ex_req, sh_req, upgrade_req, ex_rep, sh_rep, upgrade_rep,
}
use snipersimcommon.Msi.Slots.{DirectoryCache}
use snipersimcommon.Msi.State.{State, send_msg, reply}
use snipersimcommon.Msi.Kept.Cache.{SoundCache}

-- The requests of a core, and the replies that answer one.
abbrev pub is_request : MsgType → Bool
is_request ex_req = true
is_request sh_req = true
is_request upgrade_req = true
is_request _ = false

abbrev pub is_answer : MsgType → Bool
is_answer ex_rep = true
is_answer sh_rep = true
is_answer upgrade_rep = true
is_answer _ = false

unfoldable pub one_if : Bool → ℕ
one_if b = if b then 1 else 0

-- The answers that were sent to a core for an address.
unfoldable pub answers : ℕ → ℕ → List ShmemMsg → ℕ
unfolding one_if
answers core x [] = 0
answers core x (m ∷ ms) =
    one_if (is_answer m.msg_type && m.receiver == core && m.address == x) + answers core x ms

-- What is due for a request; `pending` for the requests of a queue.
unfoldable pub due : ℕ → ℕ → ShmemReq → ℕ
unfolding one_if
due core x req = one_if (
    is_request req.shmem_msg.msg_type
    && req.shmem_msg.requester == core
    && req.shmem_msg.address == x)

unfoldable pub pending : ℕ → ℕ → List ShmemReq → ℕ
unfolding due
pending core x [] = 0
pending core x (req ∷ reqs) = due core x req + pending core x reqs

-- Answers and requests that still wait for one.
unfoldable pub account : State → ℕ → ℕ → ℕ
unfolding answers pending
account s core x = answers core x s.sent + pending core x (s.queues x)

-- All entries are coherent, and a request is in the queue of its address.
pub record Sound (s : State) : Type 0 where
  pub cache : SoundCache s.cache
  pub queued : (x : ℕ) → Every (λ req. req.shmem_msg.address ≡ x) (s.queues x)

-- From `s` to `t`, in a call for the address: `t` is sound, no other queue that is in use changes, and the
-- accounts are the same but for what was `paid`.
pub record Kept (address : ℕ) (paid : ℕ → ℕ → ℕ) (s t : State) : Type 0 where
  pub sound : Sound t
  pub frame : (x : ℕ) → x ≢ address → s.queues x ≢ [] → t.queues x ≡ s.queues x
  pub even : (core x : ℕ) → account t core x + paid core x ≡ account s core x

abbrev pub nothing_paid : ℕ → ℕ → ℕ
nothing_paid core x = 0

-- A step that neither changes a queue nor answers.
pub record Quiet (s t : State) : Type 0 where
  pub sound : Sound t
  pub queues : t.queues ≡ s.queues
  pub answered : (core x : ℕ) → answers core x t.sent ≡ answers core x s.sent

pub Quiet-refl : {s : State} → Sound s → Quiet s s
Quiet-refl v = record { sound = v; queues = refl; answered = λ core x. refl }

pub Quiet-trans : {s t u : State} → Quiet s t → Quiet t u → Quiet s u
Quiet-trans a b = record {
  sound = b.sound;
  queues = b.queues ∙ a.queues;
  answered = λ core x. b.answered core x ∙ a.answered core x;
}

pub Quiet-Kept :
    {address : ℕ} {paid : ℕ → ℕ → ℕ} {s t u : State}
    → Quiet s t
    → Kept address paid t u
    → Kept address paid s u
unfolding account
Quiet-Kept {s} {t} a b = record {
  sound = b.sound;
  frame = λ x other busy.
      let same : t.queues x ≡ s.queues x = ap (λ q. q x) a.queues in
      b.frame x other (λ idle. busy (sym same ∙ idle)) ∙ same;
  even = λ core x.
      let same : t.queues x ≡ s.queues x = ap (λ q. q x) a.queues in
      omega (arith, b.even core x, a.answered core x, ap (pending core x) same);
}

pub Kept-of_Quiet : {s t : State} (address : ℕ) → Quiet s t → Kept address nothing_paid s t
unfolding account
Kept-of_Quiet {s} {t} address a = record {
  sound = a.sound;
  frame = λ x other busy. ap (λ q. q x) a.queues;
  even = λ core x.
      let same : t.queues x ≡ s.queues x = ap (λ q. q x) a.queues in
      omega (arith, a.answered core x, ap (pending core x) same);
}

pub Kept-Quiet :
    {address : ℕ} {paid : ℕ → ℕ → ℕ} {s t u : State}
    → Kept address paid s t
    → Quiet t u
    → Kept address paid s u
unfolding account
Kept-Quiet {s = s} {t} a b = record {
  sound = b.sound;
  frame = λ x other busy. ap (λ q. q x) b.queues ∙ a.frame x other busy;
  even = λ core x.
      let same = ap (λ (q : ℕ → List ShmemReq). pending core x (q x)) b.queues in
      omega (arith, a.even core x, b.answered core x, same);
}

pub Kept-trans :
    {address : ℕ} {paid : ℕ → ℕ → ℕ} {s t u : State}
    → Kept address paid s t
    → Kept address nothing_paid t u
    → Kept address paid s u
Kept-trans a b = record {
  sound = b.sound;
  frame = λ x other busy.
      let same = a.frame x other busy in b.frame x other (λ idle. busy (sym same ∙ idle)) ∙ same;
  even = λ core x. omega (arith, a.even core x, b.even core x);
}

-- A call for an address that is idle leaves all that is in use, so it serves any address.
pub Kept-idle :
    {idle address : ℕ} {s t : State}
    → s.queues idle ≡ []
    → Kept idle nothing_paid s t
    → Kept address nothing_paid s t
Kept-idle {s = s} empty a = record {
  sound = a.sound;
  frame = λ x other busy. a.frame x (λ same. busy (ap s.queues same ∙ empty)) busy;
  even = a.even;
}

pub Kept-paid :
    {address : ℕ} {paid other : ℕ → ℕ → ℕ} {s t : State}
    → ((core x : ℕ) → paid core x ≡ other core x)
    → Kept address paid s t
    → Kept address other s t
Kept-paid same a = record {
  sound = a.sound;
  frame = a.frame;
  even = λ core x. omega (arith, a.even core x, same core x);
}

-- Nothing is due for what is no request of a core.
pub due_nothing :
    (req : ShmemReq) (core x : ℕ) → is_request req.shmem_msg.msg_type ≡ false → due core x req ≡ 0
unfolding due
due_nothing req core x internal = rw internal refl

-- Another directory.
pub cache-Quiet :
    {s : State} (d : DirectoryCache) → Sound s → SoundCache d → Quiet s (record s { cache = d })
cache-Quiet d v w = record {
  sound = record { cache = w; queued = v.queued };
  queues = refl;
  answered = λ core x. refl;
}

-- A message that answers no request.
pub send_msg-Quiet :
    {s : State} (msg_type : MsgType) (component : Component) (requester receiver address : ℕ)
    (data_buf : Option ℕ)
    → is_answer msg_type ≡ false
    → Sound s
    → Quiet s (send_msg msg_type component requester receiver address data_buf s)
unfolding send_msg answers
send_msg-Quiet msg_type component requester receiver address data_buf asks v = record {
  sound = record { cache = v.cache; queued = v.queued };
  queues = refl;
  answered = λ core x. rw asks (omega arith);
}

-- An answer counts for the core and the address.
pub answers-reply :
    (s : State) (msg_type : MsgType) (receiver address : ℕ) (data_buf : Option ℕ) (core x : ℕ)
    → is_answer msg_type ≡ true
    → answers core x (reply msg_type receiver address data_buf s).sent
      ≡ one_if (receiver == core && address == x) + answers core x s.sent
unfolding reply send_msg answers
answers-reply s msg_type receiver address data_buf core x answer = rw answer refl

-- A reply to the requester of a request is what is due for it.
pub account-reply :
    (s : State) (msg_type : MsgType) (req : ShmemReq) (data_buf : Option ℕ) (core x : ℕ)
    → is_answer msg_type ≡ true
    → is_request req.shmem_msg.msg_type ≡ true
    → account (reply msg_type req.shmem_msg.requester req.shmem_msg.address data_buf s) core x
      ≡ account s core x + due core x req
unfolding reply send_msg answers due account
account-reply s msg_type req data_buf core x answer request = rw (answer, request) (omega arith)
