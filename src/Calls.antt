-- ===== src/Calls.antt =====
-- proxy_server.go: the record of a call and the table of calls. A call is shared by the table and the
-- handlers that hold it, so it is named by the reference under which the store holds it. A time is
-- `none` where it is the zero time. The mutexes make each method one step.
pub mod Laws
use tjsip.Base.{
  ℕ, zero, suc, ◌+◌, ◌-◌, ◌/◌, Bool, true, false, Option, none, some, List, [], ◌∷◌, ◌++◌, Bytes,
  codes, leb, is_some, if◌then◌else◌,
}
use tjsip.Base.Classes.{◌==◌, bytes_eq, nat_eq}
use tjsip.Base.Assoc.{Assoc, lookup, insert, delete}
use tjsip.Base.Outcome.{Outcome, ok, err, panic, ◌>>=◌}
use tjsip.Message.{Message, To, Contact, Uri, CallId}
use tjsip.Base.Int.{ℤ, pos, negsuc}
use tjsip.Base.Text.{format_int}
use tjsip.Message.Urls.{Urls}
use tjsip.Message.Print.{print_contact, print_call_id, print_to}

pub record CallInfo : Type 0 where
  pub setup_time : Option ℕ
  pub established_time : Option ℕ
  pub terminated_time : Option ℕ
  pub caller_address : Bytes
  pub caller_contact : Bytes
  pub callee_address : Bytes
  pub callee_contact : Bytes
  pub call_id : Bytes
  pub from : Option To
  pub to : Option To
  pub received_request_uri : Bytes
  pub sent_request_uri : Bytes
  pub disconnected_reason : ℕ
  pub disconnected_location : ℕ
  pub received_request : Option Message
  pub sent_request : Option Message
  pub received_final_response : Option Message
  pub closed : Bool

abbrev pub new_call_info : CallInfo
new_call_info = record {
  setup_time = none;
  established_time = none;
  terminated_time = none;
  caller_address = [];
  caller_contact = [];
  callee_address = [];
  callee_contact = [];
  call_id = [];
  from = none;
  to = none;
  received_request_uri = [];
  sent_request_uri = [];
  disconnected_reason = 0;
  disconnected_location = 0;
  received_request = none;
  sent_request = none;
  received_final_response = none;
  closed = false;
}

-- The contact that the loop leaves behind: that of the last one.
last_contact : Urls → Bytes → Option (List Contact) → Outcome Bytes
last_contact urls before none = ok before
last_contact urls before (some []) = ok before
last_contact urls before (some (c ∷ cs)) = do
  s ← print_contact urls c
  last_contact urls s (some cs)

print_uri : Urls → Option Uri → Outcome Bytes
print_uri urls none = panic
print_uri urls (some uri) = ok (urls.print uri)

print_id : Option CallId → Outcome Bytes
unfolding print_call_id
print_id none = panic
print_id (some c) = ok (print_call_id c)

-- The method, where the call is open.
abbrev when_open : CallInfo → Outcome CallInfo → Outcome CallInfo
when_open c changed = if c.closed then ok c else changed

module _ (urls : Urls) (now : ℕ) where
  unfoldable pub record_caller : CallInfo → Message → Outcome CallInfo
  unfolding last_contact print_uri print_id
  record_caller c msg = when_open c (do
    uri ← print_uri urls msg.request_uri
    contact ← last_contact urls c.caller_contact msg.contact
    id ← print_id msg.call_id
    ok (record c {
      received_request_uri = uri;
      from = msg.from;
      to = msg.to;
      setup_time = some now;
      caller_address = msg.remote_addr;
      caller_contact = contact;
      call_id = id;
      received_request = some msg;
    }))

  unfoldable pub record_callee : CallInfo → Message → Outcome CallInfo
  unfolding print_uri
  record_callee c msg = when_open c (do
    uri ← print_uri urls msg.request_uri
    ok (record c {
      sent_request_uri = uri;
      callee_address = msg.remote_addr;
      sent_request = some msg;
    }))

  unfoldable pub record_established : CallInfo → Message → Outcome CallInfo
  unfolding last_contact
  record_established c msg = when_open c (do
    contact ← last_contact urls c.callee_contact msg.contact
    ok (record c {
      established_time = some now;
      callee_contact = contact;
      received_final_response = some msg;
    }))

  unfoldable pub record_terminated : CallInfo → Message → ℕ → CallInfo
  record_terminated c msg location = if c.closed then c else record c {
    terminated_time = some now;
    disconnected_reason = msg.status_code;
    disconnected_location = location;
  }

unfoldable pub close : CallInfo → CallInfo
close c = record c { closed = true }

-- callInfo.String. `print_time` is the String of a time; times are nanoseconds.
abbrev second : ℕ
second = 1_000_000_000

opposite : ℕ → ℤ
opposite zero = pos 0
opposite (suc n) = negsuc n

-- int64((t - e) / time.Second), and the sign that Go keeps
seconds_between : ℕ → ℕ → ℤ
unfolding opposite
seconds_between e t = if leb e t then pos ((t - e) / second) else opposite ((e - t) / second)

abbrev in_quotes : Bytes → Bytes
in_quotes s = b'"' ∷ s ++ b'"' ∷ []

join : List Bytes → Bytes
join [] = []
join (s ∷ []) = s
join (s ∷ t ∷ ts) = s ++ b',' ∷ join (t ∷ ts)

duration : Option ℕ → Option ℕ → Bytes × Bytes
unfolding seconds_between
duration (some e) (some t) = (codes "1", format_int (seconds_between e t) ++ codes ".00")
duration _ _ = (codes "0", codes "0.00")

abbrev time_or_empty : (Option ℕ → Bytes) → Option ℕ → Bytes
time_or_empty print_time none = []
time_or_empty print_time (some t) = print_time (some t)

print_party : Urls → Option To → Outcome Bytes
unfolding print_to
print_party urls none = panic
print_party urls (some t) = print_to urls t

unfoldable pub print_call : Urls → (Option ℕ → Bytes) → CallInfo → Outcome Bytes
unfolding print_party duration join
print_call urls print_time c = do
  from ← print_party urls c.from
  to ← print_party urls c.to
  let (complete, seconds) = duration c.established_time c.terminated_time
  ok (
      join (
        complete
        ∷ in_quotes (print_time c.setup_time)
        ∷ in_quotes (time_or_empty print_time c.established_time)
        ∷ in_quotes (print_time c.terminated_time)
        ∷ seconds
        ∷ in_quotes c.caller_address
        ∷ in_quotes c.callee_address
        ∷ in_quotes c.caller_contact
        ∷ in_quotes c.callee_contact
        ∷ in_quotes c.call_id
        ∷ in_quotes from
        ∷ in_quotes to
        ∷ in_quotes c.received_request_uri
        ∷ in_quotes c.sent_request_uri
        ∷ format_int (pos c.disconnected_reason)
        ∷ format_int (pos c.disconnected_location)
        ∷ []))

-- The calls by their references, and the table of references by Call-ID. `next` is the reference of
-- the next call, `removals` holds the calls that a sleeping goroutine is going to remove, and
-- `written` the records of calls that were logged, the last one first.
abbrev pub CallRef : Type 0
CallRef = ℕ

pub record CallStates : Type 0 where
  pub infos : Assoc CallRef CallInfo
  pub calls : Assoc Bytes CallRef
  pub next : CallRef
  pub removals : List CallRef
  pub written : List Bytes

abbrev pub new_call_states : CallStates
new_call_states = record { infos = []; calls = []; next = 0; removals = []; written = [] }

-- The call that a reference names; every reference that is handed out has one.
unfoldable pub info_at : CallStates → CallRef → CallInfo
info_at c r = elim (lookup r c.infos) [ none ↦ new_call_info | some i ↦ i ]

unfoldable pub put : CallStates → CallRef → CallInfo → CallStates
put c r i = record c { infos = insert r i c.infos }

-- NewCallInfo
unfoldable pub allocate : CallStates → CallStates × CallRef
unfolding put
allocate c = (put (record c { next = c.next + 1 }) c.next new_call_info, c.next)

-- Add, Remove and Close of a call that is nil return false and do nothing; here the call is there.
unfoldable pub add : CallStates → CallRef → CallStates × Bool
unfolding info_at
add c r =
    let id = (info_at c r).call_id in
    if id == [] then (c, false) else (record c { calls = insert id r c.calls }, true)

unfoldable pub remove : CallStates → CallRef → CallStates × Bool
unfolding info_at
remove c r =
    let id = (info_at c r).call_id in
    if id == []
    then (c, false)
    else if is_some (lookup id c.calls)
    then (record c { calls = delete id c.calls }, true)
    else (c, false)

-- Close, up to the start of the goroutine that sleeps. The text of the record may panic.
unfoldable pub close_call : (CallInfo → Outcome Bytes) → CallStates → CallRef → Outcome CallStates
unfolding put info_at close
close_call text c r = do
  let info = close (info_at c r)
  line ← text info
  let closed = put c r info
  ok (record closed { removals = c.removals ++ r ∷ []; written = line ∷ c.written })

-- What the goroutine does that wakes up next. All sleep for the same time.
unfoldable pub wake : CallStates → CallStates
unfolding remove
wake c = elim c.removals [ [] ↦ c | r ∷ rs ↦ (remove (record c { removals = rs }) r).0 ]

-- A method of a call that stands in the store.
unfoldable pub on_call : CallStates → CallRef → Outcome CallInfo → Outcome CallStates
unfolding put
on_call c r changed = do i ← changed; ok (put c r i)

unfoldable pub get : CallStates → Bytes → Option CallRef
get c id = if id == [] then none else lookup id c.calls
