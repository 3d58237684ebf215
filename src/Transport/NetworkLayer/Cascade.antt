-- ===== src/Transport/NetworkLayer/Cascade.antt =====
-- DestroyChannelContext of network_layer.cc ends every transaction of the channel.
use sippet.Base.{
  ◌≡◌, refl, sym, ◌∙◌, ap, subst, Bool, true, false, List, [], ◌∷◌, Option, none, some,
  if◌then◌else◌, Bool-cases, inl, inr, arith, Text, equal, equal_iff, equal_refl, All,
}
use sippet.Base.Maps.{find, text_eq, find-erase}
use sippet.Transport.EndPoint.{EndPoint, Key, key}
use sippet.Transport.NetworkLayer.{
  Layer, key_eq, emit, member, is_client_id, owner, forget, leave_channel,
  on_transaction_terminated, terminate_all, close_transaction,
}

pub owner-forget :
    (id j : Text) (l : Layer) → owner j (forget id l) ≡ (if equal id j then none else owner j l)
owner-forget id j l = elim (Bool-cases (equal id j)) [
  | inl t ↦ rw t (subst (λ x. owner x (forget id l) ≡ none) ((equal_iff id j).0 t) same)
  | inr f ↦ rw f (elim (Bool-cases (is_client_id id)) [
    | inl c ↦ elim (Bool-cases (is_client_id j)) [
      | inl d ↦ rw (c, d) (find-erase id j l.client_transactions ∙ rw f refl)
      | inr d ↦ rw (c, d) refl
    ]
    | inr c ↦ elim (Bool-cases (is_client_id j)) [
      | inl d ↦ rw (c, d) refl
      | inr d ↦ rw (c, d) (find-erase id j l.server_transactions ∙ rw f refl)
    ]
  ])
]
  where
    same : owner id (forget id l) ≡ none
    same = elim (Bool-cases (is_client_id id)) [
      | inl c ↦ rw c (find-erase id id l.client_transactions ∙ rw (equal_refl id) refl)
      | inr c ↦ rw c (find-erase id id l.server_transactions ∙ rw (equal_refl id) refl)
    ]

pub channels-forget : (id : Text) (l : Layer) → (forget id l).channels ≡ l.channels
channels-forget id l = elim (Bool-cases (is_client_id id)) [ inl c ↦ rw c refl | inr c ↦ rw c refl ]

-- No id stands twice.
abbrev pub Distinct : List Text → Type 0
Distinct [] = Unit
Distinct (id ∷ ids) = (member id ids ≡ false) × Distinct ids

-- Every id belongs to a transaction on the channel with the key.
abbrev pub AllOn : Key → Layer → List Text → Type 0
AllOn k l = All (λ id. (d : EndPoint) × (owner id l ≡ some d) × (key d ≡ k))

-- The layer with the transactions ended.
pub record Ended (ids : List Text) (l l' : Layer) : Type 0 where
  pub same_channels : l'.channels ≡ l.channels
  pub owners : (j : Text) → owner j l' ≡ (if member j ids then none else owner j l)

AllOn-forget :
    (k : Key) (l l' : Layer) (id : Text) (ids : List Text)
    → ((j : Text) → owner j l' ≡ (if equal id j then none else owner j l))
    → member id ids ≡ false
    → AllOn k l ids
    → AllOn k l' ids
AllOn-forget k l l' id [] o m a = tt
AllOn-forget k l l' id (x ∷ ids) o m ((d, e, h), a) = elim (Bool-cases (equal x id)) [
  | inl t ↦ absurd (cc (ap (λ b. if b then true else member id ids) (sym t) ∙ m))
  | inr f ↦ (
    (d, o x ∙ rw (swapped f) e, h),
    AllOn-forget k l l' id ids o (ap (λ b. if b then true else member id ids) (sym f) ∙ m) a,
  )
]
  where
    swapped : equal x id ≡ false → equal id x ≡ false
    swapped f = ground (arith, equal_iff id x, equal_iff x id)

leave_lem :
    (k : Key) (id : Text) (d : EndPoint) (l : Layer)
    → find k l.channels ≡ none
    → key d ≡ k
    → (leave_channel id d l) ≡ emit (close_transaction id) l
unfolding leave_channel
leave_lem k id d l gone e = rw (ap (λ x. find x l.channels) e ∙ gone, leave_channel) refl

joined :
    (b c : Bool) (o : Option EndPoint) {p : Option EndPoint}
    → p ≡ (if b then none else o)
    → (if c then none else p) ≡ (if (if b then true else c) then none else o)
joined true true o e = refl
joined true false o e = e
joined false true o e = refl
joined false false o e = e

-- With the channel gone, the loop ends its transactions one by one, and meets no fault.
pub terminate_all-Ended :
    (k : Key) (ids : List Text) (l : Layer)
    → find k l.channels ≡ none
    → Distinct ids
    → AllOn k l ids
    → (l' : Layer) × (terminate_all ids l ≡ some l') × Ended ids l l'
unfolding terminate_all on_transaction_terminated
terminate_all-Ended k [] l gone u a = (l, refl, record { same_channels = refl; owners = λ j. refl })
terminate_all-Ended k (id ∷ ids) l gone (fresh, u) ((d, e, h), a) =
    let l1 : Layer = emit (close_transaction id) (forget id l) in
    let gone1 : find k l1.channels ≡ none = ap (λ m. find k m) (channels-forget id l) ∙ gone in
    let left : leave_channel id d (forget id l) ≡ l1 = leave_lem k id d (forget id l) gone1 h in
    let (l', done, ended) =
      terminate_all-Ended k ids l1 gone1 u
        (AllOn-forget k l l1 id ids (λ j. owner-forget id j l) fresh a) in
    (
      l',
      rw (e, terminate_all) (rw left done),
      record {
        same_channels = ended.same_channels ∙ channels-forget id l;
        owners = λ j.
            ended.owners j ∙ joined (equal id j) (member j ids) (owner j l) (owner-forget id j l);
      },
    )

pub AllOn-member :
    (k : Key) (l : Layer) (id : Text) (ids : List Text)
    → AllOn k l ids
    → member id ids ≡ true
    → (d : EndPoint) × (owner id l ≡ some d) × (key d ≡ k)
AllOn-member k l id [] a m = absurd (cc m)
AllOn-member k l id (x ∷ ids) (p, a) m = elim (Bool-cases (equal x id)) [
  | inl t ↦
      subst (λ y. (d : EndPoint) × (owner y l ≡ some d) × (key d ≡ k)) ((equal_iff x id).0 t) p
  | inr f ↦ AllOn-member k l id ids a (ap (λ b. if b then true else member id ids) (sym f) ∙ m)
]
