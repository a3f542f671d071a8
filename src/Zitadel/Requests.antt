-- ===== src/Zitadel/Requests.antt =====
-- internal/infra/zitadel/types.go: the requests, and the JSON that `json.Marshal` makes of them. A
-- field marked `omitempty` is left out where it is empty, zero, false or nil.
use oauth2_token_exchange.Common.{
  ℕ, String, Bool, true, Option, none, some, List, [], ◌∷◌, ◌==◌, eqb, if◌then◌else◌,
}
use oauth2_token_exchange.Common.Int.{pos}
use oauth2_token_exchange.Go.Time.{Time, Rfc3339, is_zero}
use oauth2_token_exchange.Go.Json.{
  Json, null, bool, number, text, array, object, Items, nil, item, Members, end, member,
}

abbrev pub UserType : Type 0
UserType = String

abbrev pub user_type_machine : UserType
user_type_machine = "TYPE_MACHINE"

-- `RFC3339Time.MarshalJSON`
unfoldable pub marshal_time : Rfc3339 → Time → Json
unfolding is_zero
marshal_time calendar t = if is_zero t then null else text (calendar.format t)

abbrev text_unless_empty : String → String → Members → Members
text_unless_empty key s rest = if s == "" then rest else member key (text s) rest

abbrev number_unless_zero : String → ℕ → Members → Members
number_unless_zero key n rest = if eqb n 0 then rest else member key (number (pos n)) rest

abbrev true_only : String → Bool → Members → Members
true_only key b rest = if b then member key (bool true) rest else rest

module _ {A : Type 0} (encode : A → Json) where
  abbrev unless_nil : String → Option A → Members → Members
  unless_nil key none rest = rest
  unless_nil key (some a) rest = member key (encode a) rest

  items_of : List A → Items
  items_of [] = nil
  items_of (a ∷ as') = item (encode a) (items_of as')

  list_unless_empty : String → List A → Members → Members
  unfolding items_of
  list_unless_empty key [] rest = rest
  list_unless_empty key (a ∷ as') rest = member key (array (items_of (a ∷ as'))) rest

pub record ListQuery : Type 0 where
  pub offset : ℕ
  pub limit : ℕ
  pub asc : Bool

abbrev encode_query : ListQuery → Json
encode_query q = object (
    number_unless_zero "offset" q.offset
      (number_unless_zero "limit" q.limit (true_only "asc" q.asc end)))

pub record UserNameQuery : Type 0 where
  pub user_name : String
  pub method : String

pub record TypeQuery : Type 0 where
  pub type : UserType

pub record OrganizationIdQuery : Type 0 where
  pub organization_id : String

pub record SearchQuery : Type 0 where
  pub user_name_query : Option UserNameQuery
  pub type_query : Option TypeQuery
  pub organization_id_query : Option OrganizationIdQuery

abbrev encode_search : SearchQuery → Json
encode_search q = object (
    unless_nil
      (λ (u : UserNameQuery).
        object (member "userName" (text u.user_name) (member "method" (text u.method) end)))
      "userNameQuery" q.user_name_query
      (unless_nil (λ (t : TypeQuery). object (member "type" (text t.type) end)) "typeQuery"
        q.type_query
        (unless_nil
          (λ (o : OrganizationIdQuery).
            object (member "organizationId" (text o.organization_id) end))
          "organizationIdQuery" q.organization_id_query end)))

pub record ListUsersRequest : Type 0 where
  pub query : Option ListQuery
  pub sorting_column : String
  pub queries : List SearchQuery

unfoldable pub encode_list_users : ListUsersRequest → Json
unfolding list_unless_empty
encode_list_users r = object (
    unless_nil encode_query "query" r.query (
      text_unless_empty "sortingColumn" r.sorting_column
        (list_unless_empty encode_search "queries" r.queries end)))

pub record CreateUserRequestMachine : Type 0 where
  pub name : String
  pub description : String

pub record CreateUserRequest : Type 0 where
  pub organization_id : String
  pub user_id : Option String
  pub username : Option String
  pub machine : Option CreateUserRequestMachine

unfoldable pub encode_create_user : CreateUserRequest → Json
encode_create_user r = object (
    member "organizationId" (text r.organization_id) (
      unless_nil text "userId" r.user_id (
        unless_nil text "username" r.username (
          unless_nil
            (λ (m : CreateUserRequestMachine).
              object
                (member "name" (text m.name) (text_unless_empty "description" m.description end)))
            "machine" r.machine end))))

pub record AddPersonalAccessTokenRequest : Type 0 where
  pub user_id : String
  pub expiration_date : Option Time

abbrev or_null : Rfc3339 → Option Time → Json
or_null calendar none = null
or_null calendar (some t) = marshal_time calendar t

unfoldable pub encode_add_token : Rfc3339 → AddPersonalAccessTokenRequest → Json
unfolding marshal_time
encode_add_token calendar r = object (
    member "userId" (text r.user_id)
      (member "expirationDate" (or_null calendar r.expiration_date) end))

pub record PaginationRequest : Type 0 where
  pub offset : ℕ
  pub limit : ℕ
  pub asc : Bool

pub record IdFilter : Type 0 where
  pub id : String

pub record PersonalAccessTokensSearchFilter : Type 0 where
  pub user_id_filter : Option IdFilter

pub record ListPersonalAccessTokensRequest : Type 0 where
  pub pagination : Option PaginationRequest
  pub sorting_column : String
  pub filters : List PersonalAccessTokensSearchFilter

abbrev encode_filter : PersonalAccessTokensSearchFilter → Json
encode_filter f = object (
    unless_nil (λ (i : IdFilter). object (member "id" (text i.id) end)) "userIdFilter"
      f.user_id_filter end)

unfoldable pub encode_list_tokens : ListPersonalAccessTokensRequest → Json
unfolding list_unless_empty
encode_list_tokens r = object (
    unless_nil
      (λ (p : PaginationRequest).
        encode_query (record { offset = p.offset; limit = p.limit; asc = p.asc }))
      "pagination" r.pagination
      (text_unless_empty "sortingColumn" r.sorting_column
        (list_unless_empty encode_filter "filters" r.filters end)))
