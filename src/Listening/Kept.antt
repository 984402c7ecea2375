-- ===== src/Listening/Kept.antt =====
-- Which descriptors stay open where clients are accepted.
use mmo_backend.Base.{
  ℕ, ◌+◌, ◌≡◌, refl, ap, ◌∙◌, Bool, true, ◌&&◌, if◌then◌else◌, Option, none, some, List, [], ◌∷◌,
  ok, length, arith, Bool-cases, inl, inr, Result,
}
use mmo_backend.Base.Handles.{acquire, release, take_out}
use mmo_backend.Listening.{
  Address, Resources, Visit, ConnInfo, start_thread, with_info, with_client, is_open, accept_round,
  accept_rounds, add_thread, web_server_start,
}
use mmo_backend.Listening.Sockets.{usable, with_socket, open_listenfd-Opens}

-- How many clients get a thread.
abbrev pub served : List Visit → ℕ
served [] = 0
served (v ∷ visits) = (if v.accepts && v.allocates && v.creates then 1 else 0) + served visits

-- The descriptors of clients, the newest first, on those that were open.
abbrev pub opened : List ConnInfo → List ℕ → List ℕ
opened [] live = live
opened (ci ∷ threads) live = opened threads (ci.fd ∷ live)

abbrev pub opened_one : Option ConnInfo → List ℕ → List ℕ
opened_one none live = live
opened_one (some ci) live = ci.fd ∷ live

-- A turn of the loop: the thread that it starts, if it does.
record Turn (starts : Bool) (r : Resources) (result : Result (Option ConnInfo × Resources))
    : Type 0 where
  thread : Option ConnInfo
  after : Resources
  returns : result ≡ ok (thread, after)
  open_eq : after.fds.live ≡ opened_one thread r.fds.live
  started : length (add_thread thread []) ≡ (if starts then 1 else 0)

accept_round-Turn :
    (listen_fd : Option ℕ) (v : Visit) (r : Resources)
    → Turn
        (is_open listen_fd && v.accepts && v.allocates && v.creates)
        r
        (accept_round listen_fd v r)
unfolding accept_round with_client with_info start_thread acquire release take_out
accept_round-Turn none v r = record {
  thread = none;
  after = r;
  returns = ground arith;
  open_eq = refl;
  started = refl;
}
accept_round-Turn (some listen_fd) v r = elim (Bool-cases v.accepts) [
  | inr e ↦ record {
    thread = none;
    after = r;
    returns = ground (arith, e);
    open_eq = refl;
    started = ground (arith, e);
  }
  | inl e1 ↦ elim (Bool-cases v.allocates) [
    | inr e ↦ record {
      thread = none;
      after = record r { fds = record { next = r.fds.next + 1; live = r.fds.live } };
      returns = ground (arith, e1, e);
      open_eq = refl;
      started = ground (arith, e1, e);
    }
    | inl e2 ↦ elim (Bool-cases v.creates) [
      | inr e ↦ record {
        thread = none;
        after = record {
          fds = record { next = r.fds.next + 1; live = r.fds.live };
          blocks = record { next = r.blocks.next + 1; live = r.blocks.next ∷ r.blocks.live };
        };
        returns = ground (arith, e1, e2, e);
        open_eq = refl;
        started = ground (arith, e1, e2, e);
      }
      | inl e3 ↦ record {
        thread = some (record { block = r.blocks.next; fd = r.fds.next });
        after = record {
          fds = record { next = r.fds.next + 1; live = r.fds.next ∷ r.fds.live };
          blocks = record { next = r.blocks.next + 1; live = r.blocks.next ∷ r.blocks.live };
        };
        returns = ground (arith, e1, e2, e3);
        open_eq = refl;
        started = ground (arith, e1, e2, e3);
      }
    ]
  ]
]

record Served (n : ℕ) (r : Resources) (result : Result (List ConnInfo × Resources)) : Type 0 where
  threads : List ConnInfo
  after : Resources
  returns : result ≡ ok (threads, after)
  open_eq : after.fds.live ≡ opened threads r.fds.live
  many : length threads ≡ n

opened-add :
    (thread : Option ConnInfo) (threads : List ConnInfo) (live : List ℕ)
    → opened threads (opened_one thread live) ≡ opened (add_thread thread threads) live
opened-add none threads live = refl
opened-add (some ci) threads live = refl

length-add :
    (thread : Option ConnInfo) (threads : List ConnInfo)
    → length (add_thread thread threads) ≡ length (add_thread thread []) + length threads
length-add none threads = omega arith
length-add (some ci) threads = omega arith

accept_rounds-Served :
    (listen_fd : Option ℕ) (visits : List Visit) (r : Resources)
    → Served (if is_open listen_fd then served visits else 0) r (accept_rounds listen_fd visits r)
unfolding accept_rounds
accept_rounds-Served listen_fd [] r = record {
  threads = [];
  after = r;
  returns = refl;
  open_eq = refl;
  many = ground arith;
}
accept_rounds-Served listen_fd (v ∷ visits) r =
    let t = accept_round-Turn listen_fd v r in
    let s = accept_rounds-Served listen_fd visits t.after in
    record {
      threads = add_thread t.thread s.threads;
      after = s.after;
      returns = ground (arith, t.returns, s.returns);
      open_eq =
          s.open_eq ∙ ap (opened s.threads) t.open_eq ∙ opened-add t.thread s.threads r.fds.live;
      many = length-add t.thread s.threads ∙ ground (arith, t.started, s.many);
    }

-- The server once it has seen its visitors: the socket it listens on, and a thread for each client
-- that could be served.
pub record Serves (can : Bool) (n : ℕ) (r : Resources)
    (result : Result (Option (List ConnInfo) × Resources)) : Type 0 where
  pub listen_fd : Option ℕ
  pub threads : List ConnInfo
  pub after : Resources
  pub returns : result ≡ ok (some threads, after)
  pub listens : is_open listen_fd ≡ can
  pub open_eq : after.fds.live ≡ opened threads (with_socket listen_fd r.fds.live)
  pub many : length threads ≡ (if can then n else 0)

-- Whatever the kernel answers, a detached web_server_start that has seen its visitors has had no
-- fault: it listens just when open_listenfd could open a socket; then each client that was
-- accepted and for which memory and a thread could be had has one thread, and else no client
-- has; and the descriptors that it opened and that are open are the socket and one for each
-- thread.
pub web_server_start-Serves :
    (addresses : List Address) (listens : Bool) (visits : List Visit) (r : Resources)
    → Serves
        (usable addresses && listens)
        (served visits)
        r
        (web_server_start true addresses listens visits r)
unfolding web_server_start
web_server_start-Serves addresses listens visits r =
    let o = open_listenfd-Opens addresses listens r.fds in
    let s =
      accept_rounds-Served o.socket visits
        (record r { fds = record { next = o.next; live = with_socket o.socket r.fds.live } }) in
    record {
      listen_fd = o.socket;
      threads = s.threads;
      after = s.after;
      returns = ground (arith, o.returns, s.returns);
      listens = o.found;
      open_eq = s.open_eq;
      many = s.many ∙ ap (λ (c : Bool). if c then served visits else 0) o.found;
    }
