-- ===== src/Buffer/Linked/Several.antt =====
-- The inner loop of alloc_shm_buffers, next to slices that share the list.
use shmipc_cpp.Common.{
  ℕ, suc, zero, ◌+◌, ◌-◌, ◌<◌, ◌≡◌, ◌⊎◌, inl, inr, refl, ap, subst, ◌∙◌, sym, arith, List, [], ◌∷◌,
  ◌++◌, length, All, Option, some, Bool-cases, ◌==◌,
}
use mathlib.Core.List.{append_assoc, append-nil}
use shmipc_cpp.Shm.{Shm}
use shmipc_cpp.Error.{Result}
use shmipc_cpp.Buffer.Slice.{BufferSlice}
use shmipc_cpp.Buffer.FreeList.{BufferList, pop}
use shmipc_cpp.Buffer.Manager.Chains.{Allocation, alloc_list, after_pop}
use shmipc_cpp.Buffer.SliceList.{Cursor, push_back}
use shmipc_cpp.Buffer.Linked.Reclaim.{unread}
use shmipc_cpp.Buffer.Linked.Supply.{IsBlank, unread-before}
use shmipc_cpp.Buffer.Linked.Shared.{Shares}
use shmipc_cpp.Buffer.Linked.Allotted.{PopsNext, pop-PopsNext}

module _ (l : BufferList) (n c : ℕ) (some_cap : 0 < c) where
  abbrev pub allocation : ℕ → ℕ → List BufferSlice → Cursor → Allocation
  allocation remain size ss w = record {
    remain = remain;
    alloc_size = size;
    slices = record { slices = ss; write = w };
  }

  -- What the loop of alloc_shm_buffers adds to the slices `ss`.
  pub record Adds (t : ℕ) (ss : List BufferSlice) (w : Cursor) (size : ℕ) (m : Shm)
      (o : Option (Allocation × Shm)) : Type 0 where
    pub news : List BufferSlice
    pub remain : ℕ
    pub alloc_size : ℕ
    pub shm : Shm
    pub result_is : o ≡ some (allocation remain alloc_size (ss ++ news) w, shm)
    pub ks : List ℕ
    pub used : ℕ
    pub os : List (Option ℕ)
    pub shares : Shares l n c ks t used os (ss ++ news) shm
    pub blank : All IsBlank news
    pub kept : unread ss shm ≡ unread ss m
    pub counted : (alloc_size ≡ size) ⊎ (0 < length news)

  no_news :
      (t : ℕ) (ks : List ℕ) (used : ℕ) (os : List (Option ℕ)) (ss : List BufferSlice) (w : Cursor)
      (remain size : ℕ) (m m' : Shm)
      → Shares l n c ks t used os ss m'
      → unread ss m' ≡ unread ss m
      → Adds t ss w size m (some (allocation remain size ss w, m'))
  no_news t ks used os ss w remain size m m' r kept = record {
    news = [];
    remain = remain;
    alloc_size = size;
    shm = m';
    result_is =
        ap (λ (xs : List BufferSlice). some (allocation remain size xs w, m'))
          (sym (append-nil ss));
    ks = ks;
    used = used;
    os = os;
    shares =
        subst (λ (xs : List BufferSlice). Shares l n c ks t used os xs m') (sym (append-nil ss)) r;
    blank = tt;
    kept = kept;
    counted = inl refl;
  }

  one_new :
      (t : ℕ) (ss : List BufferSlice) (b : BufferSlice) (w : Cursor) (size size' : ℕ) (m m₁ : Shm)
      (o : Option (Allocation × Shm))
      → IsBlank b
      → unread ss m₁ ≡ unread ss m
      → Adds t (ss ++ (b ∷ [])) w size' m₁ o
      → Adds t ss w size m o
  one_new t ss b w size size' m m₁ o blank kept rest =
      let whole : (ss ++ (b ∷ [])) ++ rest.news ≡ ss ++ (b ∷ rest.news) =
        append_assoc ss (b ∷ []) rest.news in
      record {
        news = b ∷ rest.news;
        remain = rest.remain;
        alloc_size = rest.alloc_size;
        shm = rest.shm;
        result_is =
            rest.result_is
            ∙ ap
                (λ (xs : List BufferSlice).
                  some (allocation rest.remain rest.alloc_size xs w, rest.shm))
                whole;
        ks = rest.ks;
        used = rest.used;
        os = rest.os;
        shares =
            subst (λ (xs : List BufferSlice). Shares l n c rest.ks t rest.used rest.os xs rest.shm)
              whole rest.shares;
        blank = (blank, rest.blank);
        kept =
            sym (unread-before ss (b ∷ []) rest.shm (blank, tt))
            ∙ rest.kept
            ∙ unread-before ss (b ∷ []) m₁ (blank, tt)
            ∙ kept;
        counted = inr (omega arith);
      }

  -- Behind a pop, when the loop does as it should on what is left.
  behind_pop :
      (fuel : ℕ) (ks : List ℕ) (t used : ℕ) (os : List (Option ℕ)) (ss : List BufferSlice)
      (w : Cursor) (remain size : ℕ) (m : Shm)
      → ((ks' : List ℕ) (used' : ℕ) (os' : List (Option ℕ)) (ss' : List BufferSlice)
            (remain' size' : ℕ) (m' : Shm)
          → length ks' < fuel
          → Shares l n c ks' t used' os' ss' m'
          → Adds t ss' w size' m' (alloc_list fuel l (allocation remain' size' ss' w) m'))
      → length ks < suc fuel
      → (p : Result BufferSlice × Shm) → PopsNext l n c some_cap ks t used os ss m p
      → Adds t ss w size m (after_pop (alloc_list fuel l) (allocation remain size ss w) p)
  unfolding push_back
  behind_pop fuel [] t used os ss w remain size m recur enough (r, m₁) (refused, r', kept) =
      subst
        (λ (x : Result BufferSlice).
          Adds t ss w size m (after_pop (alloc_list fuel l) (allocation remain size ss w) (x, m₁)))
        (sym refused) (no_news t [] used os ss w remain size m m₁ r' kept)
  behind_pop fuel (k ∷ ks) t used os ss w remain size m recur enough (r, m₁)
        (b, popped, cap_is, blank, r', kept) =
      subst
        (λ (x : Result BufferSlice).
          Adds t ss w size m (after_pop (alloc_list fuel l) (allocation remain size ss w) (x, m₁)))
        (sym popped)
        (one_new t ss b w size (size + b.cap) m m₁ _ blank kept (
          recur ks (used + 1) (os ++ (some k ∷ [])) (ss ++ (b ∷ [])) (remain - b.cap) (size + b.cap)
            m₁ (omega arith) r'))

  pub alloc_list-Adds :
      (fuel : ℕ) (ks : List ℕ) (t used : ℕ) (os : List (Option ℕ)) (ss : List BufferSlice)
      (w : Cursor) (remain size : ℕ) (m : Shm)
      → length ks < fuel
      → Shares l n c ks t used os ss m
      → Adds t ss w size m (alloc_list fuel l (allocation remain size ss w) m)
  unfolding alloc_list
  alloc_list-Adds zero ks t used os ss w remain size m enough r = absurd (omega arith)
  alloc_list-Adds (suc fuel) ks t used os ss w remain size m enough r =
      elim (Bool-cases (remain == 0)) [
        | inl at_end ↦ simp at_end (no_news t ks used os ss w remain size m m r refl)
        | inr more ↦ simp more (
            behind_pop fuel ks t used os ss w remain size m
              (λ ks' used' os' ss' remain' size' m'.
                alloc_list-Adds fuel ks' t used' os' ss' w remain' size' m')
              enough (pop l m) (pop-PopsNext l n c some_cap ks t used os ss m r))
      ]
