-- ===== src/Campaign/Sending.antt =====
-- What a dispatch publishes: the loop over the pages against the list of contacts as a whole.
use omnipulse_backend.Base.{
  ℕ, zero, suc, ◌+◌, ◌<◌, Bool, true, false, List, [], ◌∷◌, ◌++◌, map, length, take, drop,
  take-drop, select, tally, is_empty, ltb, ◌≡◌, refl, inl, inr, ap, sym, ◌∙◌, Bool-cases, arith,
  append_assoc, append_nil, drop-drop, short_page, length-drop_lt, no_page, tally-cut,
}
use omnipulse_backend.Contact.Types.{Contact}
use omnipulse_backend.Campaign.Types.{Campaign}
use omnipulse_backend.Campaign.Task.{Task}
use omnipulse_backend.Campaign.Store.{Result, ok, Store, query}
use omnipulse_backend.Campaign.Audience.{Workspace, list_by_tenant}
use omnipulse_backend.Campaign.Dispatch.{
  contact_task, publish_dispatch_task, emit_contact_task, emit_contacts, dispatch_pages, page_size,
}

-- The store after tasks are published.
abbrev pub publishing : Store → List Task → Store
publishing s ts = record s { outbox = s.outbox ++ ts }

-- The tasks of the contacts that are wanted, in order.
abbrev pub tasks_of : Campaign → ℕ → (Contact → Bool) → List Contact → List Task
tasks_of c now wanted cons = map (contact_task c now) (select wanted cons)

pub publishing_nil : (s : Store) → publishing s [] ≡ s
publishing_nil s = ap (λ (o : List Task). record s { outbox = o }) (append_nil s.outbox)

pub publishing_twice :
    (s : Store) (ts us : List Task) → publishing (publishing s ts) us ≡ publishing s (ts ++ us)
publishing_twice s ts us =
    ap (λ (o : List Task). record s { outbox = o }) (append_assoc s.outbox ts us)

emit_contact_task-quiet :
    (c : Campaign) (con : Contact) (s : Store)
    → s.faults ≡ []
    → emit_contact_task c con s ≡ (ok tt, publishing s (contact_task c s.now con ∷ []))
unfolding emit_contact_task publish_dispatch_task query
emit_contact_task-quiet c con s quiet = ground arith

emit_contacts_nil :
    (c : Campaign) (wanted : Contact → Bool) (s : Store) → emit_contacts c wanted [] s ≡ (ok 0, s)
unfolding emit_contacts
emit_contacts_nil c wanted s = refl

-- Without a fault the loop over contacts publishes the tasks of those that are wanted.
pub emit_contacts-quiet :
    (c : Campaign) (wanted : Contact → Bool) (cons : List Contact) (s : Store)
    → s.faults ≡ []
    → emit_contacts c wanted cons s
      ≡ (ok (tally wanted cons), publishing s (tasks_of c s.now wanted cons))
unfolding emit_contacts
emit_contacts-quiet c wanted [] s quiet = ap (λ t. (ok 0, t)) (sym (publishing_nil s))
emit_contacts-quiet c wanted (con ∷ rest) s quiet = elim (Bool-cases (wanted con)) [
  | inr skips ↦ ground (arith, emit_contacts-quiet c wanted rest s quiet)
  | inl wants ↦
      let t = publishing s (contact_task c s.now con ∷ []) in
      ground (
        arith,
        emit_contact_task-quiet c con s quiet,
        emit_contacts-quiet c wanted rest t quiet,
        publishing_twice s (contact_task c s.now con ∷ []) (tasks_of c s.now wanted rest),
      )
]

tasks_of-append :
    (c : Campaign) (now : ℕ) (wanted : Contact → Bool) (xs ys : List Contact)
    → tasks_of c now wanted (xs ++ ys) ≡ tasks_of c now wanted xs ++ tasks_of c now wanted ys
tasks_of-append c now wanted [] ys = refl
tasks_of-append c now wanted (x ∷ xs) ys = ground (arith, tasks_of-append c now wanted xs ys)

tasks_of-cut :
    (c : Campaign) (now : ℕ) (wanted : Contact → Bool) (n : ℕ) (xs : List Contact)
    → tasks_of c now wanted xs
      ≡ tasks_of c now wanted (take n xs) ++ tasks_of c now wanted (drop n xs)
tasks_of-cut c now wanted n xs =
    ap (λ r. tasks_of c now wanted r) (sym (take-drop n xs))
    ∙ tasks_of-append c now wanted (take n xs) (drop n xs)

list_by_tenant-quiet :
    (w : Workspace) (limit offset : ℕ) (s : Store)
    → s.faults ≡ []
    → list_by_tenant w limit offset s ≡ (ok (take limit (drop offset w.contacts)), s)
unfolding list_by_tenant query
list_by_tenant-quiet w limit offset s quiet = ground arith

ltb_lt : (a b : ℕ) → ltb a b ≡ true → a < b
ltb_lt a b h = ground arith

pages_empty :
    (w : Workspace) (c : Campaign) (wanted : Contact → Bool) (fuel offset : ℕ) (s : Store)
    (page : List Contact)
    → list_by_tenant w page_size offset s ≡ (ok page, s)
    → is_empty page ≡ true
    → dispatch_pages w c wanted (suc fuel) offset s ≡ (ok 0, s)
unfolding dispatch_pages
pages_empty w c wanted fuel offset s page listed h = ground arith

pages_last :
    (w : Workspace) (c : Campaign) (wanted : Contact → Bool) (fuel offset : ℕ) (s : Store)
    (page : List Contact) (n : ℕ) (t : Store)
    → list_by_tenant w page_size offset s ≡ (ok page, s)
    → is_empty page ≡ false
    → ltb (length page) page_size ≡ true
    → emit_contacts c wanted page s ≡ (ok n, t)
    → dispatch_pages w c wanted (suc fuel) offset s ≡ (ok n, t)
unfolding dispatch_pages
pages_last w c wanted fuel offset s page n t listed h short emitted = ground arith

pages_more :
    (w : Workspace) (c : Campaign) (wanted : Contact → Bool) (fuel offset : ℕ) (s : Store)
    (page : List Contact) (n m : ℕ) (t u : Store)
    → list_by_tenant w page_size offset s ≡ (ok page, s)
    → is_empty page ≡ false
    → ltb (length page) page_size ≡ false
    → emit_contacts c wanted page s ≡ (ok n, t)
    → dispatch_pages w c wanted fuel (offset + page_size) t ≡ (ok m, u)
    → dispatch_pages w c wanted (suc fuel) offset s ≡ (ok (n + m), u)
unfolding dispatch_pages
pages_more w c wanted fuel offset s page n m t u listed h long emitted next = ground arith

page-enough :
    (w : Workspace) (offset fuel : ℕ)
    → length (drop offset w.contacts) < suc fuel
    → is_empty (take page_size (drop offset w.contacts)) ≡ false
    → length (drop (offset + page_size) w.contacts) < fuel
page-enough w offset fuel enough h =
    let e : drop (offset + page_size) w.contacts ≡ drop page_size (drop offset w.contacts) =
      drop-drop offset page_size w.contacts in
    let k : length (drop page_size (drop offset w.contacts)) < fuel =
      length-drop_lt page_size (drop offset w.contacts) fuel h (omega (arith, enough)) in
    rw e k

publishing-cut :
    (c : Campaign) (wanted : Contact → Bool) (n : ℕ) (xs : List Contact) (s : Store)
    → publishing
        (publishing s (tasks_of c s.now wanted (take n xs)))
        (tasks_of c s.now wanted (drop n xs))
      ≡ publishing s (tasks_of c s.now wanted xs)
publishing-cut c wanted n xs s =
    publishing_twice s (tasks_of c s.now wanted (take n xs)) (tasks_of c s.now wanted (drop n xs))
    ∙ ap (λ ts. publishing s ts) (sym (tasks_of-cut c s.now wanted n xs))

-- Without a fault the loop over the pages publishes exactly the tasks of the wanted contacts from
-- its offset on, each once and in order, and returns their number; the fuel lasts.
pub dispatch_pages-quiet :
    (w : Workspace) (c : Campaign) (wanted : Contact → Bool) (fuel offset : ℕ) (s : Store)
    → s.faults ≡ []
    → length (drop offset w.contacts) < fuel
    → dispatch_pages w c wanted fuel offset s ≡ (
      ok (tally wanted (drop offset w.contacts)),
      publishing s (tasks_of c s.now wanted (drop offset w.contacts)),
    )
dispatch_pages-quiet w c wanted zero offset s quiet enough = ground arith
dispatch_pages-quiet w c wanted (suc fuel) offset s quiet enough =
    let left = drop offset w.contacts in
    let page = take page_size left in
    let after = drop page_size left in
    let done : List Contact → Result ℕ × Store =
      λ xs. (ok (tally wanted xs), publishing s (tasks_of c s.now wanted xs)) in
    let t = publishing s (tasks_of c s.now wanted page) in
    let listed : list_by_tenant w page_size offset s ≡ (ok page, s) =
      list_by_tenant-quiet w page_size offset s quiet in
    let emitted : emit_contacts c wanted page s ≡ (ok (tally wanted page), t) =
      emit_contacts-quiet c wanted page s quiet in
    elim (Bool-cases (is_empty page)) [
      | inl empty ↦
          pages_empty w c wanted fuel offset s page listed empty
          ∙ (ap (λ r. (ok 0, r)) (sym (publishing_nil s)) ∙ ap done (sym (no_page 99 left empty)))
      | inr nonempty ↦ elim (Bool-cases (ltb (length page) page_size)) [
        | inl last ↦
            pages_last w c wanted fuel offset s page (tally wanted page) t listed nonempty last
              emitted
            ∙ ap done (short_page page_size left (ltb_lt (length page) page_size last))
        | inr full ↦
            let cut : drop (offset + page_size) w.contacts ≡ after =
              drop-drop offset page_size w.contacts in
            let next : dispatch_pages w c wanted fuel (offset + page_size) t
                ≡ (ok (tally wanted after), publishing t (tasks_of c s.now wanted after)) =
              dispatch_pages-quiet w c wanted fuel (offset + page_size) t quiet
                (page-enough w offset fuel enough nonempty)
              ∙ ap
                  (λ (r : List Contact).
                    (ok (tally wanted r), publishing t (tasks_of c s.now wanted r)))
                  cut in
            pages_more w c wanted fuel offset s page (tally wanted page) (tally wanted after) t
              (publishing t (tasks_of c s.now wanted after)) listed nonempty full emitted next
            ∙ (ap (λ (r : ℕ). (ok r, publishing t (tasks_of c s.now wanted after)))
                  (sym (tally-cut wanted page_size left))
                ∙ ap (λ (r : Store). (ok (tally wanted left), r))
                    (publishing-cut c wanted page_size left s))
      ]
    ]
