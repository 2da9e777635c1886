-- ===== src/Linode/Types.antt =====
-- The data of services/linode/src/lib.rs: errors, subdomains, domains, records and instances.
use emporium.Prelude.{ℕ, String, Bool, true, false, List, ◌==◌, string_eq, if◌then◌else◌}
use emporium.Std.Text.{◌<>◌, trim_end_matches}

-- `ApiError`, `ErrorResponse` and `LinodeApiError`
pub record ApiError : Type 0 where
  pub reason : String

pub record ErrorResponse : Type 0 where
  pub errors : List ApiError

pub record LinodeApiError : Type 0 where
  pub status : ℕ
  pub errors : List ApiError

-- `LinodeApiError::new`
unfoldable pub new_api_error : ℕ → ErrorResponse → LinodeApiError
new_api_error status response = record { status = status; errors = response.errors }

-- `RecordType`
pub data RecordType : Type 0 where
  a aaaa cname txt srv mx ns caa ptr : RecordType

-- `Display for RecordType`
unfoldable pub type_to_string : RecordType → String
type_to_string a = "A"
type_to_string aaaa = "AAAA"
type_to_string cname = "CNAME"
type_to_string txt = "TXT"
type_to_string srv = "SRV"
type_to_string mx = "MX"
type_to_string ns = "NS"
type_to_string caa = "CAA"
type_to_string ptr = "PTR"

-- `DomainID` and `LinodeID` are their numbers
pub record Domain : Type 0 where
  pub id : ℕ
  pub name : String

pub record RecordId : Type 0 where
  pub domain : ℕ
  pub record_id : ℕ

-- `GetDomainRecord` and `Record`
pub record GetDomainRecord : Type 0 where
  pub type_of : RecordType
  pub name : String
  pub target : String
  pub id : ℕ

pub record Record : Type 0 where
  pub type_of : RecordType
  pub name : String
  pub target : String
  pub id : RecordId

-- `Record::new`
unfoldable pub new_record : GetDomainRecord → ℕ → Record
new_record get domain = record {
  type_of = get.type_of;
  name = get.name;
  target = get.target;
  id = record { domain = domain; record_id = get.id };
}

-- `CreateDomainRecord`, its lifetime in seconds as it is sent, and `UpdateDomainRecord`
pub record CreateDomainRecord : Type 0 where
  pub type_of : RecordType
  pub target : String
  pub name : String
  pub ttl_sec : ℕ

pub record UpdateDomainRecord : Type 0 where
  pub type_of : RecordType
  pub target : String
  pub name : String

-- `SubDomain`
pub data SubDomain : Type 0 where
  named : String → SubDomain
  root wildcard : SubDomain

-- `SubDomain::with_domain` and `SubDomain::as_str`
unfoldable pub with_domain : SubDomain → Domain → String
unfolding trim_end_matches
with_domain (named name) domain = trim_end_matches 46 name <> "." <> domain.name
with_domain root domain = domain.name
with_domain wildcard domain = "*." <> domain.name

unfoldable pub as_str : SubDomain → String
as_str (named name) = name
as_str root = "@"
as_str wildcard = "*"

-- `From<&str> for SubDomain`
unfoldable pub sub_domain_from : String → SubDomain
sub_domain_from value =
    if value == ""
    then root
    else if value == "@"
    then root
    else if value == "*"
    then wildcard
    else named value

-- `PartialEq` of two subdomains
unfoldable pub sub_domain_eq : SubDomain → SubDomain → Bool
sub_domain_eq (named x) (named y) = x == y
sub_domain_eq root root = true
sub_domain_eq wildcard wildcard = true
sub_domain_eq _ _ = false

-- `PartialEq<str> for SubDomain`
unfoldable pub sub_domain_is : SubDomain → String → Bool
unfolding sub_domain_eq as_str
sub_domain_is s other =
    if other == ""
    then sub_domain_eq s root
    else if other == "@"
    then sub_domain_eq s root
    else if other == "*"
    then sub_domain_eq s wildcard
    else as_str s == other

-- `Record::subdomain`
unfoldable pub record_sub_domain : Record → SubDomain
unfolding sub_domain_from
record_sub_domain r = sub_domain_from r.name
