-- ===== src/Uart.antt =====
-- src/kernel/uart.c: the buffer of characters on their way to the device. The device is outside: `ready i` is what the
-- i-th read of its status register says about LSR_TX_IDLE, and `sent` is what it was given, in order.
pub mod Queue
use enhanced_xv.Base.{
  ℕ, zero, suc, ◌+◌, ◌%◌, ◌^◌, Bool, true, false, List, [], ◌∷◌, ◌++◌, if◌then◌else◌, ◌==◌, update,
}
use enhanced_xv.Proc.{ProcTable, wakeup, sleep_enter}
use enhanced_xv.Console.{Console, consoleintr}

-- UART_TX_BUF_SIZE
abbrev pub tx_buf_size : ℕ
tx_buf_size = 32

-- `uart_tx_buf`, `uart_tx_w` and `uart_tx_r`, with the device, the reads of its status register so far, and the
-- process table.
pub record Uart : Type 0 where
  pub buf : ℕ → ℕ
  pub w : ℕ
  pub r : ℕ
  pub sent : List ℕ
  pub reads : ℕ
  pub procs : ProcTable

-- `ticks`, `myproc()` and the address of `uart_tx_r`.
pub record Context : Type 0 where
  pub now : ℕ
  pub me : ℕ
  pub chan : ℕ

-- A turn of `uartstart` that sends a character.
abbrev pub send : Context → Uart → Uart
send c u = record {
  buf = u.buf;
  w = u.w;
  r = (u.r + 1) % 2 ^ 64;
  sent = u.sent ++ (u.buf (u.r % tx_buf_size) ∷ []);
  reads = u.reads + 1;
  procs = wakeup c.now c.me c.chan u.procs;
}

unfoldable pub start_loop : (ℕ → Bool) → Context → ℕ → Uart → Uart
start_loop ready c zero u = u
start_loop ready c (suc fuel) u =
    let rest = start_loop ready c fuel (send c u) in
    if u.w == u.r then u else if ready u.reads then rest else record u { reads = u.reads + 1 }

-- The buffer holds at most 32 characters, so 33 turns are enough.
unfoldable pub uartstart : (ℕ → Bool) → Context → Uart → Uart
uartstart ready c = start_loop ready c 33

-- Whether the caller sleeps, after which it is called again, or the character was taken.
pub data Put : Type 0 where
  sleeps : Uart → Put
  done : Uart → Put

-- `uartputc` from the point where it holds the lock, of a kernel that has not panicked.
unfoldable pub uartputc : (ℕ → Bool) → Context → ℕ → ℕ → Uart → Put
uartputc ready c slot ch u =
    if u.w == (u.r + tx_buf_size) % 2 ^ 64
    then sleeps (record u { procs = sleep_enter c.chan slot u.procs })
    else done (
        uartstart ready c
          (record u { buf = update u.buf (u.w % tx_buf_size) (ch % 256); w = (u.w + 1) % 2 ^ 64 }))

-- The first loop of `uartintr`, over the characters that wait in the receive register.
unfoldable pub receive : ℕ → ℕ → ℕ → List ℕ → Console → Console
receive now me chan [] s = s
receive now me chan (ch ∷ chars) s = receive now me chan chars (consoleintr now me chan ch s)
