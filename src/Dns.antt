-- ===== src/Dns.antt =====
-- The DNS messages of `miekg/dns` as far as the proxy reads and writes them.
pub mod Names
pub mod Lifetimes
pub mod Replies
pub mod CertText
pub mod Padding
mod Tests
use sourcegraph_testing_dnsc.Base.{Bool, Bytes, List, Option, ℕ}

abbrev pub class_inet : ℕ
class_inet = 1

-- The record types.
abbrev pub type_a : ℕ
type_a = 1

abbrev pub type_cname : ℕ
type_cname = 5

abbrev pub type_soa : ℕ
type_soa = 6

abbrev pub type_ptr : ℕ
type_ptr = 12

abbrev pub type_hinfo : ℕ
type_hinfo = 13

abbrev pub type_txt : ℕ
type_txt = 16

abbrev pub type_aaaa : ℕ
type_aaaa = 28

abbrev pub type_opt : ℕ
type_opt = 41

abbrev pub type_svcb : ℕ
type_svcb = 64

abbrev pub type_https : ℕ
type_https = 65

-- The response codes.
abbrev pub rcode_success : ℕ
rcode_success = 0

abbrev pub rcode_server_failure : ℕ
rcode_server_failure = 2

abbrev pub rcode_name_error : ℕ
rcode_name_error = 3

abbrev pub rcode_refused : ℕ
rcode_refused = 5

abbrev pub rcode_not_auth : ℕ
rcode_not_auth = 9

pub record RrHeader : Type 0 where
  pub name : Bytes
  pub rrtype : ℕ
  pub class : ℕ
  pub ttl : ℕ

-- An EDNS0 option: its code and its data.
pub record EdnsOption : Type 0 where
  pub code : ℕ
  pub payload : Bytes

pub data Rdata : Type 0 where
  a_rr : Bytes → Rdata
  aaaa_rr : Bytes → Rdata
  cname : Bytes → Rdata
  ptr : Bytes → Rdata
  hinfo : Bytes → Bytes → Rdata
  svcb : ℕ → Bytes → Rdata
  https : ℕ → Bytes → Rdata
  txt : List Bytes → Rdata
  opt : List EdnsOption → Rdata
  -- The names, then the serial, refresh, retry, expiry and minimum.
  soa : Bytes → Bytes → List ℕ → Rdata
  other : Bytes → Rdata

pub record Rr : Type 0 where
  pub header : RrHeader
  pub rdata : Rdata

pub record Question : Type 0 where
  pub name : Bytes
  pub qtype : ℕ
  pub qclass : ℕ

pub record Msg : Type 0 where
  pub id : ℕ
  pub response : Bool
  pub truncated : Bool
  pub recursion_desired : Bool
  pub recursion_available : Bool
  pub authenticated_data : Bool
  pub checking_disabled : Bool
  pub rcode : ℕ
  pub compress : Bool
  pub question : List Question
  pub answer : List Rr
  pub ns : List Rr
  pub extra : List Rr

-- `IsEdns0`: the OPT record of a message, with its payload size, its DO bit and its options.
pub record Edns : Type 0 where
  pub udp_size : ℕ
  pub do_bit : Bool
  pub options : List EdnsOption

-- What the proxy calls of the library on whole messages; `none` is an error, or no OPT record.
pub record DnsLib : Type 0 where
  pub unpack : Bytes → Option Msg
  pub pack : Msg → Option Bytes
  pub is_edns0 : Msg → Option Edns
  pub set_edns0 : ℕ → Bool → Msg → Msg
  pub set_options : List EdnsOption → Msg → Msg
  -- What is left of the buffer that packing into failed.
  pub spoiled : Bytes → Msg → Bytes
