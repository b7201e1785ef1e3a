-- ===== src/OscDriver/Messages.antt =====
-- Incoming OSC messages: the table of methods that `register_callbacks` of NonSessionHandler.cpp hands
-- to the OSC library, and the answer of `handle_signal_list`. The handlers are those of NonSession,
-- with texts for client ids.
pub mod Registered
pub mod Exchange
pub mod Reach
use Prim.Native.String.{String, compare as compare_text}
use text.Mathlib.Text.{find?, is_lt, ◌==◌ as ◌same◌}
use ni_traktor_kontrol_f.Base.{
  ℕ, if◌then◌else◌, Bool, true, false, not, ◌||◌, ◌≡◌, Option, some, none, List, [], ◌∷◌, ◌++◌, map,
  length, Result, ok, err, index, undefined, assert_failed, ◌>>=◌, ℤ,
}
use ni_traktor_kontrol_f.OscDriver.Signals.{NonSignal, direction_str, out_direction}
use ni_traktor_kontrol_f.OscDriver.NonSession.{
  Handler, ReplyPath, announce_path, signal_list_path, other_path, handle_reply_end,
  handle_reply_announce, handle_error, handle_open, handle_save, handle_signal_list_reply,
  handle_hello,
}

abbrev pub nsm_announce : String
nsm_announce = "/nsm/server/announce"

abbrev pub nsm_hello : String
nsm_hello = "/non/hello"

abbrev pub nsm_open : String
nsm_open = "/nsm/client/open"

abbrev pub nsm_save : String
nsm_save = "/nsm/client/save"

abbrev pub osc_signal_list : String
osc_signal_list = "/signal/list"

-- The arguments of a message and their types, `s`, `i` and `f`.
pub data Arg (F : Type 0) : Type 0 where
  str : String → Arg F
  int32 : ℤ → Arg F
  flt : F → Arg F

pub data ArgType : Type 0 where
  s_type i_type f_type : ArgType

abbrev pub type_of : {F : Type 0} → Arg F → ArgType
type_of (str s) = s_type
type_of (int32 n) = i_type
type_of (flt x) = f_type

pub record Message (F : Type 0) : Type 0 where
  pub path : String
  pub args : List (Arg F)

abbrev pub contains : String → String → Bool
contains s t = elim (find? s t) [ none ↦ false | some i ↦ true ]

-- A path without the wildcards of OSC patterns.
abbrev pub is_plain : String → Bool
is_plain p = not (contains p "*" || (contains p "?" || (contains p "[" || contains p "{")))

-- What is relied on of the OSC library: whether a method takes a message, by their paths and the
-- types of their arguments. A method takes the messages that have its own path and types. It takes none
-- with another number of arguments, and none with another path unless that path is a pattern.
pub record OscServer : Type 0 where
  pub takes : String → List ArgType → String → List ArgType → Bool
  pub takes_self : (p : String) (ts : List ArgType) → takes p ts p ts ≡ true
  pub takes-length :
      (p q : String) (ts us : List ArgType) → takes p ts q us ≡ true → length ts ≡ length us
  pub takes-path :
      (p q : String) (ts us : List ArgType) → is_plain q ≡ true → takes p ts q us ≡ true → p ≡ q

-- The order of `std::map<std::string, NonPeer>`.
abbrev pub text_before : String → String → Bool
text_before s t = is_lt (compare_text s t)

abbrev pub reply_path : String → ReplyPath
reply_path path =
    if path same nsm_announce
    then announce_path
    else if path same osc_signal_list
    then signal_list_path
    else other_path

module _ (F : Type 0) where
  abbrev pub Session : Type 0
  Session = Handler String text_before (NonSignal F)

  -- What a method leaves, and the bundle that it sends to the message's source.
  abbrev pub Outcome : Type 0
  Outcome = Result (Session × Option (List (Message F)))

  -- A member of the union `lo_arg`, as which the argument was not written, has no value.
  abbrev pub read_str : Arg F → Result String
  read_str (str s) = ok s
  read_str _ = err undefined

  abbrev pub read_float : Arg F → Result F
  read_float (flt x) = ok x
  read_float _ = err undefined

  abbrev pub read_int : Arg F → Result ℤ
  read_int (int32 n) = ok n
  read_int _ = err undefined

  abbrev pub text_at : List (Arg F) → ℕ → Result String
  text_at args i = index undefined args i >>= read_str

  abbrev pub float_at : List (Arg F) → ℕ → Result F
  float_at args i = index undefined args i >>= read_float

  abbrev pub quietly : Result Session → Outcome
  quietly r = r >>= λ h. ok (h, none)

  -- The messages of `handle_signal_list`.
  abbrev pub signal_message : NonSignal F → Message F
  signal_message s = record {
    path = "/reply";
    args =
        str osc_signal_list
        ∷ str s.path
        ∷ str (direction_str s.direction)
        ∷ flt s.min
        ∷ flt s.max
        ∷ flt s.default_value
        ∷ [];
  }

  abbrev pub finish_message : Message F
  finish_message = record { path = "/reply"; args = str osc_signal_list ∷ [] }

  unfoldable pub handle_signal_list : List (NonSignal F) → List (Message F)
  handle_signal_list signals = map signal_message signals ++ (finish_message ∷ [])

  -- The methods' bodies.
  unfoldable pub on_reply_end : List (Arg F) → Session → Outcome
  on_reply_end args h = do
    path ← text_at args 0
    quietly (handle_reply_end String text_before (NonSignal F) (reply_path path) h)

  unfoldable pub on_reply_announce : List (Arg F) → Session → Outcome
  on_reply_announce args h = do
    path ← text_at args 0
    arg1 ← text_at args 1
    arg2 ← text_at args 2
    arg3 ← text_at args 3
    quietly (
        handle_reply_announce String text_before (NonSignal F) (reply_path path)
          (contains arg3 "broadcast") h)

  unfoldable pub on_reply_signal : List (Arg F) → Session → Outcome
  on_reply_signal args h = do
    path ← text_at args 0
    arg1 ← text_at args 1
    arg2 ← float_at args 2
    arg3 ← float_at args 3
    arg4 ← float_at args 4
    if path same osc_signal_list
        then quietly (
            handle_signal_list_reply String text_before (NonSignal F)
              (record {
                path = arg1;
                min = arg2;
                max = arg3;
                default_value = arg4;
                direction = out_direction;
              })
              h)
        else err assert_failed

  unfoldable pub on_error : List (Arg F) → Session → Outcome
  on_error args h = do
    path ← text_at args 0
    error_code ← index undefined args 1 >>= read_int
    message ← text_at args 2
    quietly (handle_error String text_before (NonSignal F) (reply_path path) h)

  -- Given what connecting to JACK ends in.
  unfoldable pub on_open : Result (Unit {0}) → List (Arg F) → Session → Outcome
  on_open connected args h = do
    project_path ← text_at args 0
    display_name ← text_at args 1
    client_id ← text_at args 2
    quietly (handle_open String text_before (NonSignal F) connected h)

  unfoldable pub on_save : List (Arg F) → Session → Outcome
  on_save args h = quietly (ok (handle_save String text_before (NonSignal F) h))

  unfoldable pub on_signal_list : List (NonSignal F) → List (Arg F) → Session → Outcome
  on_signal_list signals args h = ok (h, some (handle_signal_list signals))

  unfoldable pub on_hello : List (Arg F) → Session → Outcome
  on_hello args h = do
    peer_url ← text_at args 0
    peer_name ← text_at args 1
    peer_version ← text_at args 2
    client_id ← text_at args 3
    quietly (handle_hello String text_before (NonSignal F) client_id h)

  pub record Method : Type 0 where
    pub path : String
    pub arg_types : List ArgType
    pub handler : List (Arg F) → Session → Outcome

  -- `register_callbacks`
  unfoldable pub methods : (signals : List (NonSignal F)) → Result (Unit {0}) → List Method
  methods signals connected =
      record { path = "/reply"; arg_types = s_type ∷ []; handler = on_reply_end }
      ∷ record {
        path = "/reply";
        arg_types = s_type ∷ s_type ∷ s_type ∷ s_type ∷ [];
        handler = on_reply_announce;
      }
      ∷ record {
        path = "/reply";
        arg_types = s_type ∷ s_type ∷ f_type ∷ f_type ∷ f_type ∷ [];
        handler = on_reply_signal;
      }
      ∷ record { path = "/error"; arg_types = s_type ∷ i_type ∷ s_type ∷ []; handler = on_error }
      ∷ record {
        path = nsm_open;
        arg_types = s_type ∷ s_type ∷ s_type ∷ [];
        handler = on_open connected;
      }
      ∷ record { path = nsm_save; arg_types = []; handler = on_save }
      ∷ record { path = osc_signal_list; arg_types = []; handler = on_signal_list signals }
      ∷ record {
        path = nsm_hello;
        arg_types = s_type ∷ s_type ∷ s_type ∷ s_type ∷ [];
        handler = on_hello;
      }
      ∷ []

  module _ (osc : OscServer) where
    -- The first method that takes a message handles it; a message that none takes is dropped.
    unfoldable pub dispatch : List Method → Message F → Session → Outcome
    dispatch [] m h = ok (h, none)
    dispatch (k ∷ ks) m h =
        let rest = dispatch ks m h in
        if osc.takes k.path k.arg_types m.path (map type_of m.args)
        then k.handler m.args h
        else rest

    unfoldable pub receive :
        (signals : List (NonSignal F)) → Result (Unit {0}) → Message F → Session → Outcome
    unfolding dispatch methods
    receive signals connected m h = dispatch (methods signals connected) m h

    -- The messages of a bundle, one after the other.
    unfoldable pub receive_all :
        (signals : List (NonSignal F))
        → Result (Unit {0})
        → List (Message F)
        → Session
        → Result Session
    receive_all signals connected [] h = ok h
    receive_all signals connected (m ∷ ms) h = do
      r ← receive signals connected m h
      receive_all signals connected ms r.0
