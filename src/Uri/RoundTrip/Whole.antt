-- ===== src/Uri/RoundTrip/Whole.antt =====
-- A SIP URI that is printed is read again (sip/uri.go).
use tjsip.Base.{
  ℕ, true, false, Option, none, some, [], ◌∷◌, ◌++◌, Bytes, ◌≡◌, ◌≢◌, refl, ap, ◌∙◌, arith, nat_beq,
}
use tjsip.Base.Classes.{bytes_eq, bytes_beq}
use tjsip.Base.Text.{split_2}
use tjsip.Base.Trimmed.{Without, split_2-none}
use tjsip.Message.{Uri, Userinfo}
use tjsip.Uri.{NetUrls}
use tjsip.Uri.Parse.{contains_ctl, parse_below, parse, parse_uri}
use tjsip.Uri.Parse.{◌>>=◌}
use tjsip.Uri.Print.{print_uri}
use tjsip.Uri.RoundTrip.{
  Each, Each-append, Each-weaken, Each-Without, lower, getscheme-found, to_lower-lower,
}
use tjsip.Uri.RoundTrip.Hosts.{name_byte, host_byte, IsPort, host_of}
use tjsip.Uri.RoundTrip.Behind.{
  at_text, parameter_text, sip_uri, print_lem, parse_authority_lem, no_slash, body_Each, rear_Each,
  parameter_body, lower_body, no_question, no_hash, split-none, body_byte, parameter_byte,
  EscapesUsers, HasUser,
}

not_star : (c : ℕ) → lower c ≡ true → nat_beq c b'*' ≡ false
unfolding lower
not_star c h = ground arith

returned : (o : Option Uri) → (o >>= λ uri. some uri) ≡ o
returned none = refl
returned (some u) = refl

contains_ctl-Each : (s : Bytes) → Each body_byte s → contains_ctl s ≡ false
unfolding contains_ctl
contains_ctl-Each [] h = refl
contains_ctl-Each (c ∷ s) h = rw (contains_ctl-Each s h.1) (ground (arith, h.0))

module _ (net : NetUrls) (escapes : EscapesUsers net) where
  -- What stands behind the scheme
  abbrev behind : Option Userinfo → Bytes → Bytes → Bytes
  behind user host p = at_text net user (host ++ parameter_text p)

  behind-Each :
      (user : Option Userinfo) (host p : Bytes)
      → HasUser user
      → Each host_byte host
      → Each parameter_byte p
      → Each body_byte (behind user host p)
  behind-Each user host p u h k =
      body_Each net escapes user (host ++ parameter_text p) u
        (Each-weaken parameter_byte body_byte _ parameter_body (rear_Each host p h k))

  parse_below_lem :
      (raw scheme : Bytes) (user : Option Userinfo) (name port p : Bytes)
      → HasUser user
      → name ≢ []
      → Each name_byte name
      → IsPort port
      → Each parameter_byte p
      → Each lower scheme
      → parse_below net raw scheme (split_2 b'?' (behind user (name ++ port) p))
        ≡ some (sip_uri scheme user (name ++ port) p)
  unfolding parse_below
  parse_below_lem raw scheme user [] port p u n h q k l = absurd (n refl)
  parse_below_lem raw scheme user (d ∷ t) port p u n h q k l =
      rw
        (
          split_2-none b'?' (behind user (d ∷ t ++ port) p) (
              Each-Without body_byte b'?' _ no_question
                (behind-Each user (d ∷ t ++ port) p u (host_of (d ∷ t) port h q) k)),
          no_slash net escapes user d ((t ++ port) ++ parameter_text p) u
              (host_of (d ∷ t) port h q).0,
          parse_authority_lem net escapes user (d ∷ t) port p u n h q k,
          to_lower-lower scheme l,
          parse_below,
        )
        refl

  text_Each :
      (scheme : Bytes) (user : Option Userinfo) (host p : Bytes)
      → Each lower scheme
      → HasUser user
      → Each host_byte host
      → Each parameter_byte p
      → Each body_byte (scheme ++ b':' ∷ behind user host p)
  text_Each scheme user host p l u h k =
      Each-append body_byte scheme (b':' ∷ behind user host p)
        (Each-weaken lower body_byte scheme lower_body l) (refl, behind-Each user host p u h k)

  parse_lem :
      (c : ℕ) (s b : Bytes)
      → Each lower (c ∷ s)
      → Each body_byte ((c ∷ s) ++ b':' ∷ b)
      → parse net ((c ∷ s) ++ b':' ∷ b) false
        ≡ parse_below net ((c ∷ s) ++ b':' ∷ b) (c ∷ s) (split_2 b'?' b)
  unfolding parse bytes_beq lower
  parse_lem c s b l e =
      rw (contains_ctl-Each ((c ∷ s) ++ b':' ∷ b) e, not_star c l.0, getscheme-found c s b l, parse)
        refl

  -- A text with a scheme is read by its scheme and what stands behind it.
  parse_text :
      (c : ℕ) (s b : Bytes)
      → Each lower (c ∷ s)
      → Each body_byte ((c ∷ s) ++ b':' ∷ b)
      → parse_uri net ((c ∷ s) ++ b':' ∷ b)
        ≡ parse_below net ((c ∷ s) ++ b':' ∷ b) (c ∷ s) (split_2 b'?' b)
  unfolding parse_uri bytes_beq
  parse_text c s b l e =
      let text : Bytes = (c ∷ s) ++ b':' ∷ b in
      let whole : Without b'#' text = Each-Without body_byte b'#' text no_hash e in
      rw (split-none b'#' text whole) (returned _ ∙ parse_lem c s b l e)

  -- A URI of a scheme in lower case, an optional user, a host with or without a port, and parameters is
  -- printed so that it is read again, where the user is of bytes, the name of the host of letters,
  -- digits and `-_.~`, and the parameters hold no control byte and none of `?#@`; net/url prints a user
  -- escaped.
  pub parse-print_uri :
      (scheme : Bytes) (user : Option Userinfo) (name port parameter : Bytes)
      → scheme ≢ []
      → Each lower scheme
      → HasUser user
      → name ≢ []
      → Each name_byte name
      → IsPort port
      → Each parameter_byte parameter
      → parse_uri net (print_uri net (sip_uri scheme user (name ++ port) parameter))
        ≡ some (sip_uri scheme user (name ++ port) parameter)
  parse-print_uri [] user name port p f l u n h q k = absurd (f refl)
  parse-print_uri (c ∷ s) user [] port p f l u n h q k = absurd (n refl)
  parse-print_uri (c ∷ s) user (d ∷ t) port p f l u n h q k =
      let host : Each host_byte ((d ∷ t) ++ port) = host_of (d ∷ t) port h q in
      ap (parse_uri net) (print_lem net c s user d (t ++ port) p host)
      ∙ parse_text c s (behind user ((d ∷ t) ++ port) p) l
          (text_Each (c ∷ s) user ((d ∷ t) ++ port) p l u host k)
      ∙ parse_below_lem _ (c ∷ s) user (d ∷ t) port p u n h q k l
