-- ===== src/Pipe/Tests.antt =====
-- The pipeline on a small world: one client, one server connection, and handlers that do nothing.
use wx_cache_proxy.Base.{
  ℕ, ◌≡◌, refl, true, false, not, ◌&&◌, ◌||◌, List, [], ◌∷◌, ◌++◌, Option, none, some, arith, ltb,
  leb, ◌==◌, if◌then◌else◌, nc_ok, nc_error,
}
use wx_cache_proxy.Pipe.State.{Msg, Client, Link, World, linked, before_from, behind}
use wx_cache_proxy.Pipe.Queue.{blank}
use wx_cache_proxy.Pipe.Done.{every, some_of}
use wx_cache_proxy.Pipe.Done
use wx_cache_proxy.Pipe.Done.Runs.{IsRun, elem}
use wx_cache_proxy.Pipe.Done.Laws.{
  req_done-answer, req_done-sticky, req_error-answer, req_error-sticky,
}
use wx_cache_proxy.Pipe.Request.{Protocol, Env, req_recv_done}
use wx_cache_proxy.Pipe.Request.Queued.{SparesClient}
use wx_cache_proxy.Pipe.Request.Fault.{Enqueues, req_recv_done-Enqueues}
use wx_cache_proxy.Pipe.Response.Quiet.{AreQuiet, IsQuiet-refl}
use wx_cache_proxy.Pipe.Response.Waiting.{waiting}
use wx_cache_proxy.Pipe.Response.Order.{
  Event, arrived, written, received, run, entered, answered, run-fifo,
}
use wx_cache_proxy.Pipe.Close.{server_close}
use wx_cache_proxy.Pipe.Close.Firm.{AreFirm, firm_refl}
use wx_cache_proxy.Pipe.Close.Loop.{IsSettled}
use wx_cache_proxy.Pipe.Close.Settled.{server_close-empties, server_close-settles}

-- Handlers that change nothing; `fragment` fails.
abbrev idle : Protocol
idle = record {
  post_coalesce = λ w o. w;
  pre_coalesce = λ w r. w;
  fragment = λ w m. (nc_error, [], w);
  reply = λ w m. (nc_ok, w);
  add_auth = λ w c s. (nc_ok, w);
  failure = λ w r. false;
  swallow_msg = λ w s m r. w;
  post_connect = λ w s. w;
  route = λ w c m. (some 0, w);
}

idle-AreQuiet : AreQuiet 0 idle
idle-AreQuiet = record {
  pre = λ w r. IsQuiet-refl 0 w;
  post = λ w o. IsQuiet-refl 0 w;
  swallow = λ w t m r. IsQuiet-refl 0 w;
}

idle-SparesClient : SparesClient 0 idle
idle-SparesClient = record {
  post = λ w o. refl;
  flags = λ w o j. refl;
  auth = λ w d s. refl;
  fragment = λ w m. refl;
  route = λ w d m. refl;
}

idle-AreFirm : (w : World) (o : Option ℕ) → AreFirm w (idle.post_coalesce w o)
idle-AreFirm w o = firm_refl w

abbrev calm : Env
calm = record {
  client_event = true;
  link_event = true;
  memory = record { message = true; keys = true };
  errno = 11;
  now = 0;
}

-- Messages below 4 are the fragments of one request, all done; number 2 is in error.
abbrev fragment : ℕ → Msg
fragment j = record (blank j 0 true) {
  mlen = 9;
  nfrag = 3;
  nfrag_done = 3;
  frag_owner = some 1;
  frag_id = if ltb j 4 then 7 else 0;
  done = ltb j 4;
  error = j == 2;
}

abbrev client : Client
client = record {
  omsg_q = 1 ∷ 2 ∷ 3 ∷ 4 ∷ [];
  rmsg = none;
  smsg = none;
  err = 0;
  eof = false;
  done = false;
  recv_ready = true;
  authenticated = true;
  out = false;
  looped = false;
}

abbrev link : Link
link = record {
  imsg_q = 5 ∷ [];
  omsg_q = 6 ∷ [];
  rmsg = none;
  smsg = none;
  err = 104;
  eof = false;
  done = false;
  connecting = false;
  connected = true;
  authenticated = true;
  open_sd = true;
  out = false;
  timeout = 0;
}

abbrev world : World
world = record {
  msg = fragment;
  client = λ c. client;
  link = λ s. link;
  free = [];
  made = 20;
  msg_id = 20;
  crashed = false;
}

fragments-IsRun : IsRun fragment (1 ∷ 2 ∷ 3 ∷ 4 ∷ []) 3 [] (1 ∷ 2 ∷ []) [] (4 ∷ [])
fragments-IsRun = record {
  shape = refl;
  once = (λ e. omega arith, (λ e. omega arith, tt));
  left_same = (refl, (refl, tt));
  right_same = tt;
  pre_other = tt;
  post_other = (λ e. omega arith, tt);
}

req_done-answer_example : (Done.req_done idle.post_coalesce world (1 ∷ 2 ∷ 3 ∷ 4 ∷ []) 3).0 ≡ (
    (fragment 3).done
    && ((fragment 3).frag_id == 0
        || ((fragment 3).fdone
            || (leb (fragment 3).nfrag (fragment 3).nfrag_done
                && every (λ y. y.done) fragment (1 ∷ 2 ∷ [])))))
req_done-answer_example =
    req_done-answer world (1 ∷ 2 ∷ 3 ∷ 4 ∷ []) 3 [] (1 ∷ 2 ∷ []) [] (4 ∷ []) fragments-IsRun
      idle.post_coalesce

answers : (Done.req_done idle.post_coalesce world (1 ∷ 2 ∷ 3 ∷ 4 ∷ []) 3).0 ≡ true
unfolding Done.req_done every Done.siblings Done.run_of before_from behind
answers = refl

inside : elem 1 (3 ∷ ((1 ∷ 2 ∷ []) ++ [])) ≡ true
unfolding elem
inside = refl

req_done-sticky_example :
    let after = (Done.req_done idle.post_coalesce world (1 ∷ 2 ∷ 3 ∷ 4 ∷ []) 3).1 in
    Done.req_done idle.post_coalesce after [] 1 ≡ (true, after)
req_done-sticky_example =
    req_done-sticky world (1 ∷ 2 ∷ 3 ∷ 4 ∷ []) 3 [] (1 ∷ 2 ∷ []) [] (4 ∷ []) fragments-IsRun
      idle.post_coalesce (λ e. omega arith) refl answers (λ f o j. (refl, refl)) 1 [] inside

req_error-answer_example : (Done.req_error fragment (1 ∷ 2 ∷ 3 ∷ 4 ∷ []) 3).0 ≡ (
    (fragment 3).error
    || (not ((fragment 3).frag_id == 0)
        && ((fragment 3).ferror || some_of (λ y. y.error) fragment (1 ∷ 2 ∷ []))))
req_error-answer_example =
    req_error-answer fragment (1 ∷ 2 ∷ 3 ∷ 4 ∷ []) 3 [] (1 ∷ 2 ∷ []) [] (4 ∷ []) fragments-IsRun

fails : (Done.req_error fragment (1 ∷ 2 ∷ 3 ∷ 4 ∷ []) 3).0 ≡ true
unfolding Done.req_error some_of Done.siblings Done.run_of before_from behind
fails = refl

req_error-sticky_example :
    (Done.req_error (Done.req_error fragment (1 ∷ 2 ∷ 3 ∷ 4 ∷ []) 3).1 [] 1).0 ≡ true
req_error-sticky_example =
    req_error-sticky fragment (1 ∷ 2 ∷ 3 ∷ 4 ∷ []) 3 [] (1 ∷ 2 ∷ []) [] (4 ∷ []) fragments-IsRun
      refl refl fails 1 [] inside (λ e. omega arith)

-- A request comes in, the first one that was not sent is written, and two responses are read.
abbrev events : List Event
events = arrived 7 0 ∷ written ∷ received 8 none ∷ received 9 none ∷ []

run-fifo_example :
    answered idle calm 0 world events ++ waiting (run idle calm 0 world events) 0
    ≡ waiting world 0 ++ entered idle calm 0 world events
run-fifo_example = run-fifo calm 0 idle idle-AreQuiet events world

server_close-empties_example :
    (((server_close idle calm world 0).link 0).imsg_q ≡ [])
    × (((server_close idle calm world 0).link 0).omsg_q ≡ [])
server_close-empties_example =
    server_close-empties 0 idle idle-AreQuiet idle-AreFirm calm world refl

waits :
    ((elem 6 (5 ∷ []) && not ((fragment 6).swallow || (fragment 6).noreply))
      || (elem 6 (6 ∷ []) && not (fragment 6).swallow))
    ≡ true
unfolding elem
waits = refl

server_close-settles_example : IsSettled ((server_close idle calm world 0).msg 6)
server_close-settles_example =
    server_close-settles 0 idle idle-AreQuiet idle-AreFirm calm world refl 6 waits

-- The request 9, whose fragmentation fails.
unlinked : linked 9 (1 ∷ 2 ∷ 3 ∷ 4 ∷ []) ≡ false
unfolding linked
unlinked = refl

req_recv_done-Enqueues_example :
    Enqueues nc_error 9 client ((req_recv_done idle calm world 0 9 none).client 0)
req_recv_done-Enqueues_example =
    req_recv_done-Enqueues 0 idle idle-SparesClient calm world 9 none (λ e. omega arith) refl refl
      refl unlinked refl refl
