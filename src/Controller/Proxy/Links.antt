-- ===== src/Controller/Proxy/Links.antt =====
-- The names of the links that `NetEnv::new` of chaos-tproxy-controller/src/proxy/net/bridge.rs
-- chooses: Linux takes names of up to 15 bytes, and two links of one namespace never share one.
use Prim.Native.Nat.{Ordering, compare}
use Prim.Native.String.{len, slice}
use native.Mathlib.Omega.{compare-eq}
use text.Mathlib.Text.{is_eq, is_le, is_char_boundary, starts_with, get?, when}
use text.Mathlib.TextPositions.{len-append, starts_with-append}
use text.Mathlib.TextLemmas.{append_cancel_left}
use chaos_tproxy.Prelude.{
  ◌+◌, ◌≡◌, ◌≢◌, refl, ◌∙◌, sym, ap, subst, Bool, true, false, ◌&&◌, false≢true, List, [], ◌∷◌,
  ◌++◌, some, String, str_eq, All, eq_iff, arith,
}
use chaos_tproxy.Outcome.{ok}
use chaos_tproxy.Outcome.Effects.{Returns}
use chaos_tproxy.RawConfig.Convert.{unwrap_or}
use chaos_tproxy.Controller.Net.{NetworkInterface, get_default_interface, get_ipv4}
use chaos_tproxy.Controller.Shell.{Route, ask_interfaces, History, Machine}
use chaos_tproxy.Controller.Commands.{NetEnv}
use chaos_tproxy.Controller.Routes.{get_routes_noblock}
use chaos_tproxy.Controller.Proxy.{key_of, named, fresh_prefix, new_env}
use chaos_tproxy.Controller.Proxy.Names.{IsFree, Draws, fresh_prefix-Draws}

-- The text of an identifier has a first part of 13 bytes, so that taking it does not panic.
abbrev pub Sliceable : String → Type 0
Sliceable uuid = (key : String) × (get? uuid 0 13 ≡ some key)

abbrev pub AllDiffer : List NetworkInterface → String → Type 0
AllDiffer interfaces name = All (λ i. ◌≢◌ {A = String} i.name name) interfaces

pub record IsNamed (interfaces : List NetworkInterface) (env : NetEnv) : Type 0 where
  pub fits :
      (len env.bridge1 ≡ 15) × (len env.bridge2 ≡ 15) × (len env.veth1 ≡ 15) × (len env.veth4 ≡ 15)
  pub is_new :
      AllDiffer interfaces env.bridge1
      × AllDiffer interfaces env.veth1
      × AllDiffer interfaces env.veth4
  pub differ_outside :
      (env.bridge1 ≢ env.veth1) × (env.bridge1 ≢ env.veth4) × (env.veth1 ≢ env.veth4)
  pub differ_inside :
      (env.bridge2 ≢ env.veth2) × (env.bridge2 ≢ env.veth3) × (env.veth2 ≢ env.veth3)

when_parts : {A : Type 0} (b : Bool) (a x : A) → when b a ≡ some x → (b ≡ true) × (a ≡ x)
when_parts true a x e = (refl, cc)
when_parts false a x e = cc

last_part : (b c : Bool) → b && c ≡ true → c ≡ true
last_part true c e = e
last_part false c e = cc

eq_true : (o : Ordering) → is_eq o ≡ true → o ≡ Ordering.eq
eq_true Ordering.lt e = cc
eq_true Ordering.eq e = refl
eq_true Ordering.gt e = cc

-- Up to a boundary a text has as many bytes.
get?-len : (uuid key : String) → get? uuid 0 13 ≡ some key → len key ≡ 13
get?-len uuid key e =
    let (within, same) = when_parts _ (slice uuid 0 13) key e in
    let at_end =
      last_part (is_le (compare 0 13) && is_char_boundary uuid 0) (is_char_boundary uuid 13)
        within in
    sym (ap len same) ∙ compare-eq (len (slice uuid 0 13)) 13 (eq_true _ at_end)

key_of-len : (uuid : String) → Sliceable uuid → len (key_of uuid) ≡ 13
key_of-len uuid (key, e) = ap (λ o. len (unwrap_or o uuid)) e ∙ get?-len uuid key e

named-len : (key suffix : String) → len key ≡ 13 → len (named key suffix) ≡ 13 + len suffix
named-len key suffix e = len-append key suffix ∙ ap (λ n. n + len suffix) e

differ : (a b : String) → str_eq a b ≡ false → a ≢ b
differ a b other same = false≢true (sym other ∙ (eq_iff a b).1 same)

suffix_differs : (key a b : String) → a ≢ b → named key a ≢ named key b
suffix_differs key a b other same = other (append_cancel_left key a b same)

named-AllDiffer :
    (interfaces : List NetworkInterface) (key suffix : String)
    → IsFree interfaces key
    → AllDiffer interfaces (named key suffix)
named-AllDiffer [] key suffix free = tt
named-AllDiffer (i ∷ interfaces) key suffix (other, free) = (
  λ same.
      false≢true (sym other ∙ (ap (λ n. starts_with n key) same ∙ starts_with-append key suffix)),
  named-AllDiffer interfaces key suffix free,
)

All-middle :
    {A : Type 0} (P : A → Type 0) (before after : List A) (x : A)
    → All P (before ++ x ∷ after)
    → P x
All-middle P [] after x (here, rest) = here
All-middle P (y ∷ before) after x (here, rest) = All-middle P before after x rest

fresh_prefix-len :
    (interfaces : List NetworkInterface) (uuids : List String) (key : String)
    → All Sliceable uuids
    → fresh_prefix interfaces uuids ≡ ok key
    → (len key ≡ 13) × IsFree interfaces key
fresh_prefix-len interfaces uuids key whole e =
    let (before, uuid, after, split, taken, same, free) =
      subst (Draws interfaces uuids) e (fresh_prefix-Draws interfaces uuids) in
    (
      ap len same
          ∙ key_of-len uuid
              (All-middle Sliceable before after uuid (subst (All Sliceable) split whole)),
      free,
    )

named-IsNamed :
    (interfaces : List NetworkInterface) (key device ip : String) (routes : List Route)
    → len key ≡ 13
    → IsFree interfaces key
    → IsNamed interfaces (record {
      netns = named key "ns";
      device = device;
      ip = ip;
      bridge1 = named key "b1";
      bridge2 = named key "b2";
      veth1 = named key "v1";
      veth2 = "veth0";
      veth3 = "veth1";
      veth4 = named key "v4";
      save_routes = routes;
    })
named-IsNamed interfaces key device ip routes size free = record {
  fits = (
    named-len key "b1" size,
    named-len key "b2" size,
    named-len key "v1" size,
    named-len key "v4" size,
  );
  is_new = (
    named-AllDiffer interfaces key "b1" free,
    named-AllDiffer interfaces key "v1" free,
    named-AllDiffer interfaces key "v4" free,
  );
  differ_outside = (
    suffix_differs key "b1" "v1" (differ "b1" "v1" refl),
    suffix_differs key "b1" "v4" (differ "b1" "v4" refl),
    suffix_differs key "v1" "v4" (differ "v1" "v4" refl),
  );
  differ_inside = (
    λ same. omega (arith, sym (named-len key "b2" size) ∙ ap len same),
    λ same. omega (arith, sym (named-len key "b2" size) ∙ ap len same),
    differ "veth0" "veth1" refl,
  );
}

module _ (m : Machine) where
  abbrev asked : History → History
  asked s = s ++ ask_interfaces ∷ []

  -- What `NetEnv::new` needs: identifiers with one that is free, a default interface with an IPv4
  -- address, and an answer with the routes.
  pub record IsReady (s : History) : Type 0 where
    pub key : String
    pub device : NetworkInterface
    pub ip : String
    pub routes : List Route
    pub whole : All Sliceable (m.uuids (asked s))
    pub is_drawn : fresh_prefix (m.interfaces s) (m.uuids (asked s)) ≡ ok key
    pub is_default : get_default_interface (m.interfaces (asked s)) ≡ ok device
    pub has_ip : get_ipv4 device.ips ≡ some ip
    pub are_listed : m.routes (asked (asked s)) ≡ ok routes

  -- When an identifier is free, the default interface has an IPv4 address and the kernel lists its
  -- routes, a new environment is made. The names of its bridges and of the ends of its links that
  -- stay outside have 15 bytes, as many as Linux takes, no interface that is there has one of those
  -- outside, and neither the three links outside nor the three in the namespace share a name.
  pub new_env-IsNamed :
      (s : History) → IsReady s → Returns (λ env s'. IsNamed (m.interfaces s) env) (new_env m s)
  unfolding new_env get_routes_noblock
  new_env-IsNamed s ready =
      let (size, free) =
        fresh_prefix-len (m.interfaces s) (m.uuids (asked s)) ready.key ready.whole
          ready.is_drawn in
      rw (ready.is_drawn, ready.is_default, ready.has_ip, ready.are_listed)
        (named-IsNamed (m.interfaces s) ready.key ready.device.name ready.ip _ size free)
