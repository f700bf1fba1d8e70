-- ===== src/Net/Resolver/Message.antt =====
-- The questions, answers and records of internal/netgw/dns.go, and its handler. A resource record
-- carries its TTL and its data; the name and class of its header are those of the question.
use hull.Prelude.{ℕ, Bool, Option, List, Bytes}
use hull.Net.Addr.{Addr}
use hull.Net.Policy.{Policy}
use hull.Net.Divert.{Rule}

pub data Kind : Type 0 where
  a cname mx ns srv txt : Kind
  unsupported : ℕ → Kind

pub record Question : Type 0 where
  pub name : Bytes
  pub kind : Kind

pub record Srv : Type 0 where
  pub port : ℕ
  pub priority : ℕ
  pub target : Bytes
  pub weight : ℕ

-- One resource record: its TTL, and what it carries.
pub data Answer : Type 0 where
  address : ℕ → Addr → Answer
  alias : ℕ → Bytes → Answer
  mail : ℕ → Bytes × ℕ → Answer
  server : ℕ → Bytes → Answer
  service : ℕ → Srv → Answer
  texts : ℕ → List Bytes → Answer

pub data Rcode : Type 0 where
  success name_error refused : Rcode

pub record Reply : Type 0 where
  pub answers : List Answer
  pub rcode : Rcode

-- `resolver`.
pub record Upstream : Type 0 where
  pub lookup_ip_addr : Bytes → Option (List Addr)
  pub lookup_cname : Bytes → Option Bytes
  pub lookup_mx : Bytes → Option (List (Bytes × ℕ))
  pub lookup_ns : Bytes → Option (List Bytes)
  pub lookup_srv : Bytes → Option (List Srv)
  pub lookup_txt : Bytes → Option (List Bytes)

-- A record of a zone: its name, empty where it goes by a regular expression; `ip` may be unset.
pub record ZoneRecord : Type 0 where
  pub name : Bytes
  pub regexp : Option (Bytes → Bool)
  pub ip : Addr

pub record Zone : Type 0 where
  pub name : Bytes
  pub records : List ZoneRecord
  pub default_ip : Option Addr

-- `dnsHandler`, without the log.
pub record Handler : Type 0 where
  pub zones : List Zone
  pub upstream : Upstream
  pub policy : Option Policy
  pub diverts : List Rule
