-- ===== src/Tests/Forking.antt =====
-- Process 1 forks into slot 1, whose trap frame is another page.
use enhanced_xv.Base.{none, true, arith, if◌then◌else◌, ◌==◌, inr}
use enhanced_xv.Proc.{used}
use enhanced_xv.File.{File, fd_none}
use enhanced_xv.Fs.{Inode}
use enhanced_xv.Life.Fork.{World, fork_child, Apart, ForkSpec, fork_child_lem}
use enhanced_xv.Tests.Data.{kernel, blank, runner, data_page}

abbrev no_file : File
no_file = record {
  ftype = fd_none;
  ref = 0;
  readable = 0;
  writable = 0;
  pipe = 0;
  ip = 0;
  off = 0;
  major = 0;
}

abbrev root : Inode
root = record { dev = 1; inum = 1; ref = 1; valid = true; nlink = 1 }

abbrev forking : World
forking = record {
  kernel = record kernel {
    procs = λ i.
        if i == 0
        then runner 1 0
        else if i == 1
        then record blank { state = used; pid = 7; trapframe = data_page }
        else blank;
  };
  nextpid = 8;
  files = record { ftable = λ _. no_file; ofile = λ _ _. none };
  itable = λ _. root;
  cwd = λ _. 0;
}

frames-Apart : Apart (forking.kernel.procs 1).trapframe (forking.kernel.procs 0).trapframe
unfolding Apart
frames-Apart = inr (omega arith)

fork_child_example : ForkSpec 0 1 forking (fork_child 0 1 forking)
fork_child_example = fork_child_lem 0 1 forking (λ e. omega arith) frames-Apart
