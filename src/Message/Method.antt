-- ===== src/Message/Method.antt =====
-- sippet/message/method_list.h and method.cc.
pub mod Coerce
use sippet.Base.{ℕ, Bool, true, false, List, [], ◌∷◌, Option, none, some, ◌==◌, Text, codes, equal}
use sippet.Message.Atom.{Atom, known, unknown, coerce, set_str}

pub data MethodType : Type 0 where
  ack bye cancel info invite message notify options prack publish pull push : MethodType
  refer register store subscribe update : MethodType

abbrev pub Method : Type 0
Method = Atom MethodType

-- The enum's value, by which two types are compared.
abbrev pub index : MethodType → ℕ
index ack = 0
index bye = 1
index cancel = 2
index info = 3
index invite = 4
index message = 5
index notify = 6
index options = 7
index prack = 8
index publish = 9
index pull = 10
index push = 11
index refer = 12
index register = 13
index store = 14
index subscribe = 15
index update = 16

-- AtomTraits<Method>::string_of
abbrev pub string_of : MethodType → Text
string_of ack = codes "ACK"
string_of bye = codes "BYE"
string_of cancel = codes "CANCEL"
string_of info = codes "INFO"
string_of invite = codes "INVITE"
string_of message = codes "MESSAGE"
string_of notify = codes "NOTIFY"
string_of options = codes "OPTIONS"
string_of prack = codes "PRACK"
string_of publish = codes "PUBLISH"
string_of pull = codes "PULL"
string_of push = codes "PUSH"
string_of refer = codes "REFER"
string_of register = codes "REGISTER"
string_of store = codes "STORE"
string_of subscribe = codes "SUBSCRIBE"
string_of update = codes "UPDATE"

abbrev entry : MethodType → Text × MethodType
entry t = (string_of t, t)

-- The `names` table, in the order of the list.
abbrev pub names : List (Text × MethodType)
names =
    entry ack
    ∷ entry bye
    ∷ entry cancel
    ∷ entry info
    ∷ entry invite
    ∷ entry message
    ∷ entry notify
    ∷ entry options
    ∷ entry prack
    ∷ entry publish
    ∷ entry pull
    ∷ entry push
    ∷ entry refer
    ∷ entry register
    ∷ entry store
    ∷ entry subscribe
    ∷ entry update
    ∷ []

-- Method(str)
abbrev pub from_str : Text → Method
from_str = set_str names

-- Method::str
abbrev pub str : Method → Text
str (known t) = string_of t
str (unknown s) = s

-- operator==(Type)
abbrev pub is_method : MethodType → Method → Bool
is_method t (known u) = index u == index t
is_method t (unknown _) = false
