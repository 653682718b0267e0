-- ===== src/Lib.antt =====
-- my_libs: containers and locks in C. This library models the allocation wrappers
-- (src/my_malloc.c), the growing array (src/my_array.c, include/my_array.h) and the priority queue
-- (src/my_queue.c, include/my_queue.h), the lock that prefers readers (src/my_pr_rwlock.c,
-- include/my_pr_rwlock.h), the red-black tree (src/my_rbtree.c, include/my_rbtree.h), the doubly
-- linked list (src/my_list.c, include/my_list.h) and the reader-writer lock for Windows
-- (src/my_rwlock.c, include/my_rwlock.h), and the hash table that grows by one place at a time
-- (src/my_dyn_hash.c, include/my_dyn_hash.h), with their theorems. The containers stand on the
-- allocation wrappers; they and the locks do not use each other.
--
-- Malloc.antt: `my_malloc`, `my_calloc`, `my_realloc`, `fixup_null_alloc`, `malloc_set_handler`.
-- The C library's allocator is the parameter `Libc`, a record of functions and of what the C
-- standard says of them, and of what a pointer is after a way through an `int`, which
-- fixup_null_alloc sends it through. `Allocator` is what the containers need; Malloc/Laws.antt fills it with the
-- wrappers of a build without HAVE_SBRK, which is the build that the repository's files make.
--
-- Array.antt: every function of my_array.c under its own name. The buffer is a list of bytes, either
-- behind the struct (`inline`), of its own (`heap`) or NULL (`null`). A pointer into it is an offset,
-- counts and offsets are unsigned 32-bit numbers and wrap around (`u32`), and an access outside the
-- buffer, like a division by 0, is the result `none`. Array/Contents.antt reads the buffer as the
-- list of its elements; the theorems say what each function does to that list. The identifiers that
-- the source misspells (`array` for `__array`, `idx` for `__idx`, my_calloc with one argument) are
-- read as the evident ones.
--
-- Queue.antt and Queue/Lifecycle.antt: the functions of my_queue.c and the macros of my_queue.h.
-- `root` is a list of pointers, a pointer is its address, and the callback is a function of two
-- addresses into ℤ; what it returns times `max_at_top` wraps around at 32 bits where C leaves the
-- overflow undefined. Loops run on fuel: `sift_up` with one step more than the index, which is halved
-- in each, and `_downheap` (`downheap`, with the loops `descend` and `climb`) with one step more
-- than the number of elements, or than the index, which each loop moves away from or towards;
-- running out of it is `none`, as a fault is, and the theorems say that the result is not `none`.
-- The allocator of the queue and the macro set_if_smaller, which no file here defines, are the
-- parameter `Extern`.
--
-- PrRwlock.antt: the functions of my_pr_rwlock.c but rw_pr_destroy, which calls the library only.
-- The mutex and the condition variable are the parameter `Pthread`, with the laws of POSIX: a mutex
-- has one owner, a signal unblocks a thread at least if one is blocked, and a wait may end without
-- one. A thread is a place in the code, `step` is the next step of one thread, and `Reaches` is any
-- interleaving of steps. A section under the mutex is one step; the test of `active_writer` in
-- rw_pr_unlock, which a reader makes without the mutex, is its own. A thread gives back a lock
-- before it asks for another. PrRwlock/Spec.antt is the abstract lock.
--
-- Rbtree.antt: rbtree_insert with rb_insert and the rotations, rbtree_search, rbtree_free,
-- rbtree_uninit and rbtree_reset of my_rbtree.c; Rbtree/Walk.antt: the walks; Rbtree/Check.antt:
-- test_rb_tree; Rbtree/Delete.antt: rbtree_delete with rb_delete_fixup; Rbtree/Position.antt:
-- rbtree_search_key, rbtree_search_edge and rbtree_search_next. The elements below the root are an
-- inductive tree, in which the null element ends each way down; the stack `parents` is the path from
-- the place in the tree back to the root (`Frame`), and assigning through its addresses is `plug`. It
-- has 64 places, and an access beyond them is a fault. Rbtree/Valid.antt says what a valid tree is.
-- The layout of a key in memory and the pool of storage are left out, and the calls of the callback
-- for freed elements are a result. rbtree_init, which fills in fields, and rbtree_record_pos, which
-- computes with floating-point numbers, are not modelled.
--
-- LinkedList.antt and LinkedList/Loops.antt: every function of my_list.c. A store has the list object
-- and the iterators at their addresses; NULL is 0, and an access to an address without an iterator is
-- a fault. New storage is an argument: an address, and what is left in its `__foreach`. A loop runs on
-- fuel, one step for each iterator and one for NULL. LinkedList/Segment.antt says that a store holds a
-- list of addresses and data. my_list_foreach and my_list_rforeach take a callback that may change the
-- store.
--
-- Rwlock.antt: the portable functions of my_rwlock.c; as in PrRwlock.antt a thread is a place, `step`
-- is the next step of one thread and `Reaches` any interleaving. Each function gives the mutex back
-- before it returns or waits, so a whole section under the mutex is one step and the mutex is left
-- out; what it signals is a result, and a thread that waits may test again at any time. An overflow of
-- an int and a failed assertion are faults. Rwlock/Native.antt: the functions over the slim locks of
-- Windows, as the calls that they make. The macros my_rw_lock_assert_write_owner and
-- my_rw_lock_assert_not_write_owner, which no file defines, are left out.
--
-- DynHash.antt, DynHash/Insert.antt and DynHash/Delete.antt: every function of my_dyn_hash.c under its
-- own name; `my_hash_insert` and `my_hash_delete` are composed of the parts of their bodies. The local
-- `blength` and `records` of my_hash_delete and my_hash_update have 32 bits (`u32`). The array
-- of links is the list of its elements, as Array/Contents.antt reads an array, and a pointer to a link
-- is its index; records and keys are addresses, with NULL as 0. The key callback and the hash function
-- are fields of the table, and the character set, which no file here defines, is the parameter
-- `Charset`. A loop through a chain runs on fuel, one step for each link of the array and one for the
-- end. DynHash/Valid.antt says what a valid table is, on the chains of DynHash/Chains.antt;
-- DynHash/Walk.antt shows that the fuel is enough for a loop along a chain. DynHash/Chains.antt and
-- DynHash/Shrink.antt have the changes of chains that the operations are made of.
--
-- Base.antt: lists as memory, bytes and 32-bit words (Base/Bytes.antt), signed integers, Boolean
-- tests.
--
-- Not modelled: src/my_hash.c, the layer over the Windows API
-- (src/my_pthread.c), and src/my_zk.c, whose functions are empty.
pub mod Array
pub mod Base
pub mod DynHash
pub mod LinkedList
pub mod Malloc
pub mod PrRwlock
pub mod Queue
pub mod Rbtree
pub mod Rwlock
